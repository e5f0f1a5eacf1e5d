-- ===== src/Semaphore/Fifo.antt =====
-- The contract of a semaphore: a fair queue of the events that called `down`.
use simplified_os_kernel.Prelude.{
  ℕ, suc, ◌+◌, ◌≡◌, ◌⊎◌, inl, inr, refl, true, Option, none, some, List, [], ◌∷◌, ◌++◌, ap, sym,
  ◌∙◌, append_assoc, append-nil, arith, ltb, length, length-append, Bool-cases,
}
use native.Mathlib.Nat.{add-zero, add-suc, suc-add}
use simplified_os_kernel.Semaphore.{Semaphore, make, down, wake, up}

-- The calls of a semaphore.
pub data Op {ℓ} (E : Type ℓ) : Type ℓ where
  downs : E → Op E
  ups : Op E

module _ {ℓ} {E : Type ℓ} where
  -- Nobody waits while the count is positive.
  abbrev pub IsFair : Semaphore E → Type ℓ
  IsFair s = (s.waiting ≡ []) ⊎ (s.count ≡ 0)

  -- The calls in order. An event that goes to the ready queue stays in the list here.
  unfoldable pub run : Semaphore E × List E → List (Op E) → Option (Semaphore E × List E)
  run (s, ready) [] = some (s, ready)
  run (s, ready) (downs e ∷ ops) = run (down e s ready) ops
  run (s, ready) (ups ∷ ops) = elim (up s ready) [ none ↦ none | some r ↦ run r ops ]

  abbrev pub callers : List (Op E) → List E
  callers [] = []
  callers (downs e ∷ ops) = e ∷ callers ops
  callers (ups ∷ ops) = callers ops

  abbrev pub signals : List (Op E) → ℕ
  signals [] = 0
  signals (downs e ∷ ops) = signals ops
  signals (ups ∷ ops) = suc (signals ops)

  -- What holds after calls by `cs` and `n` signals, the initial count included.
  pub record Served (cs : List E) (n : ℕ) (r : Semaphore E × List E) : Type ℓ where
    pub order : r.1 ++ r.0.waiting ≡ cs
    pub served : length r.1 + r.0.count ≡ n
    pub fair : IsFair r.0

  down-Served :
      (e : E) (s : Semaphore E) (ready cs : List E) (n : ℕ)
      → Served cs n (s, ready)
      → Served (cs ++ (e ∷ [])) n (down e s ready)
  unfolding down
  down-Served e s ready cs n v = elim (Bool-cases (ltb 0 s.count)) [
    | inl free ↦ rw free record {
      order =
          (ap (λ w. (ready ++ (e ∷ [])) ++ w) (idle free)
            ∙ append-nil (ready ++ (e ∷ []))
            ∙ ap (λ r. r ++ (e ∷ []))
                (sym (append-nil ready) ∙ ap (λ w. ready ++ w) (sym (idle free)) ∙ v.order));
      served = ground (arith, v.served, length-append ready (e ∷ []));
      fair = inl (idle free);
    }
    | inr held ↦ rw held record {
      order = sym (append_assoc ready s.waiting (e ∷ [])) ∙ ap (λ r. r ++ (e ∷ [])) v.order;
      served = v.served;
      fair = inr (ground arith);
    }
  ]
    where
      idle : ltb 0 s.count ≡ true → s.waiting ≡ []
      idle free = ground (arith, v.fair)

  wake-Served :
      (s : Semaphore E) (w ready cs : List E) (n : ℕ)
      → s.waiting ≡ w
      → Served cs n (s, ready)
      → (r : Semaphore E × List E) × (wake s w ready ≡ some r) × Served cs (suc n) r
  unfolding wake
  wake-Served s [] ready cs n idle v = (
    (record s { count = s.count + 1 }, ready),
    refl,
    record { order = v.order; served = omega (arith, v.served); fair = inl idle },
  )
  wake-Served s (e ∷ rest) ready cs n busy v = (
    (record s { waiting = rest }, ready ++ (e ∷ [])),
    rw zero_count,
    record {
      order = append_assoc ready (e ∷ []) rest ∙ ap (λ w. ready ++ w) (sym busy) ∙ v.order;
      served = omega (arith, v.served, length-append ready (e ∷ []));
      fair = inr zero_count;
    },
  )
    where
      zero_count : s.count ≡ 0
      zero_count = ground (arith, v.fair)

  up-Served :
      (s : Semaphore E) (ready cs : List E) (n : ℕ)
      → Served cs n (s, ready)
      → (r : Semaphore E × List E) × (up s ready ≡ some r) × Served cs (suc n) r
  unfolding up
  up-Served s ready cs n v = wake-Served s s.waiting ready cs n refl v

  run-Served :
      (r : Semaphore E × List E) (ops : List (Op E)) (cs : List E) (n : ℕ)
      → Served cs n r
      → (r' : Semaphore E × List E) × (run r ops ≡ some r')
        × Served (cs ++ callers ops) (n + signals ops) r'
  unfolding run
  run-Served r [] cs n v = (r, refl, rw (append-nil cs, add-zero n) v)
  run-Served (s, ready) (downs e ∷ ops) cs n v =
      let (r', ran, v') =
        run-Served (down e s ready) ops (cs ++ (e ∷ [])) n (down-Served e s ready cs n v) in
      (r', ran, rw (← append_assoc cs (e ∷ []) (callers ops)) v')
  run-Served (s, ready) (ups ∷ ops) cs n v =
      let (r, woken, v₁) = up-Served s ready cs n v in
      let (r', ran, v') = run-Served r ops cs (suc n) v₁ in
      (r', rw (woken, run) ran, rw (add-suc n (signals ops), ← suc-add n (signals ops)) v')

  -- Whatever calls a new semaphore of count `n` gets: the ASSERT of `up` never fails; the events that
  -- became ready, followed by those that wait, are the callers of `down` in the order of their calls;
  -- as many became ready as the count and the calls of `up` allow, less the count that is left; and
  -- nobody waits while the count is positive.
  pub run_lem :
      (n : ℕ) (ops : List (Op E))
      → (r : Semaphore E × List E) × (run (make n, []) ops ≡ some r)
        × Served (callers ops) (n + signals ops) r
  unfolding make
  run_lem n ops =
      run-Served (make n, []) ops [] n
        (record { order = refl; served = omega arith; fair = inl refl })

  pub up-IsFair :
      (s : Semaphore E) (ready : List E)
      → IsFair s
      → (r : Semaphore E × List E) × (up s ready ≡ some r) × IsFair r.0
  up-IsFair s ready fair =
      let (r, e, v) =
        up-Served s ready (ready ++ s.waiting) (length ready + s.count)
          (record { order = refl; served = refl; fair = fair }) in
      (r, e, v.fair)

  pub down-IsFair :
      (e : E) (s : Semaphore E) (ready : List E) → IsFair s → IsFair (down e s ready).0
  down-IsFair e s ready fair =
      (down-Served e s ready (ready ++ s.waiting) (length ready + s.count)
        (record { order = refl; served = refl; fair = fair })).fair

  -- `up` on a fair semaphore: nobody waits and the count grows, or the oldest waiter becomes ready.
  pub up_cases :
      (s : Semaphore E) (ready : List E)
      → IsFair s
      → ((s.waiting ≡ []) × (up s ready ≡ some (record s { count = s.count + 1 }, ready)))
        ⊎ ((e : E) × (rest : List E) × (s.waiting ≡ e ∷ rest)
            × (s.count ≡ 0)
            × (up s ready ≡ some (record s { waiting = rest }, ready ++ (e ∷ []))))
  unfolding up wake
  up_cases s ready fair = wake_cases s.waiting refl
    where
      wake_cases :
          (w : List E)
          → s.waiting ≡ w
          → ((s.waiting ≡ []) × (wake s w ready ≡ some (record s { count = s.count + 1 }, ready)))
            ⊎ ((e : E) × (rest : List E) × (s.waiting ≡ e ∷ rest)
                × (s.count ≡ 0)
                × (wake s w ready ≡ some (record s { waiting = rest }, ready ++ (e ∷ []))))
      wake_cases [] idle = inl (idle, refl)
      wake_cases (e ∷ rest) busy = inr (e, rest, busy, ground arith, ground arith)
