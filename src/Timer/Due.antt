-- ===== src/Timer/Due.antt =====
-- The timer queue is in the order of the times, and in the order of the calls among equal times.
use simplified_os_kernel.Prelude.{
  ℕ, zero, suc, ◌+◌, some, length, ap₂, ◌≤◌, ◌<◌, ◌≡◌, refl, sym, ap, ◌∙◌, arith, true, false, List,
  [], ◌∷◌, ◌++◌, ltb, leb, ◌==◌, if◌then◌else◌, inl, inr, Bool-cases, append_assoc, append-nil,
  ne→==,
}
use simplified_os_kernel.Timer.{PqEntry, Pq, add, remove_if_ready, drain_round, drain}

module _ {E : Type 0} where
  abbrev pub Sorted : ℕ → Pq E → Type 0
  Sorted lo [] = Unit
  Sorted lo (p ∷ q) = (lo ≤ p.at_time) × Sorted p.at_time q

  -- The events for the time `t`, in order.
  unfoldable pub those_at : ℕ → Pq E → List E
  those_at t [] = []
  those_at t (p ∷ q) = let rest = those_at t q in if p.at_time == t then p.event ∷ rest else rest

  -- The events that are due at `now`, in order, and the entries that are not.
  unfoldable pub due : ℕ → Pq E → List E
  due now [] = []
  due now (p ∷ q) = let rest = due now q in if leb p.at_time now then p.event ∷ rest else rest

  unfoldable pub not_due : ℕ → Pq E → Pq E
  not_due now [] = []
  not_due now (p ∷ q) = let rest = not_due now q in if leb p.at_time now then rest else p ∷ rest

  -- The queue after calls of `timed`, the first call first.
  unfoldable pub timed_all : Pq E → Pq E → Pq E
  timed_all q [] = q
  timed_all q (c ∷ calls) = timed_all (add c.at_time c.event q) calls

  add-Sorted : (lo t : ℕ) (e : E) (q : Pq E) → lo ≤ t → Sorted lo q → Sorted lo (add t e q)
  unfolding add
  add-Sorted lo t e [] h s = (h, tt)
  add-Sorted lo t e (p ∷ q) h (a, s) = elim (Bool-cases (ltb t p.at_time)) [
    | inl before ↦ rw before (h, (ground arith, s))
    | inr after ↦ rw after (a, add-Sorted p.at_time t e q (ground arith) s)
  ]

  none_at : (t lo : ℕ) (q : Pq E) → t < lo → Sorted lo q → those_at t q ≡ []
  unfolding those_at
  none_at t lo [] h s = refl
  none_at t lo (p ∷ q) h (a, s) =
      rw (ne→== p.at_time t (λ e. omega (arith, a, e, h)))
        (none_at t p.at_time q (omega (arith, a)) s)

  -- The new event is the last of its time.
  those_at-add :
      (t lo u : ℕ) (e : E) (q : Pq E)
      → Sorted lo q
      → those_at t (add u e q) ≡ those_at t q ++ those_at t (record { at_time = u; event = e } ∷ [])
  unfolding add those_at
  those_at-add t lo u e [] s = refl
  those_at-add t lo u e (p ∷ q) (a, s) = elim (Bool-cases (ltb u p.at_time)) [
    | inl before ↦ rw before (elim (Bool-cases (u == t)) [
      | inl now ↦ rw now (
          ap (λ r. e ∷ r) (nothing now before) ∙ ap (λ r. r ++ (e ∷ [])) (sym (nothing now before)))
      | inr other ↦ rw other (sym (append-nil (those_at t (p ∷ q))))
    ])
    | inr after ↦ elim (Bool-cases (p.at_time == t)) [
      | inl now ↦ rw (after, now) (ap (λ r. p.event ∷ r) (those_at-add t p.at_time u e q s))
      | inr other ↦ rw (after, other) (those_at-add t p.at_time u e q s)
    ]
  ]
    where
      nothing : (u == t) ≡ true → ltb u p.at_time ≡ true → those_at t (p ∷ q) ≡ []
      nothing now before =
          none_at t p.at_time (p ∷ q) (ground (arith, now, before)) (omega arith, s)

  nothing_due :
      (now lo : ℕ) (q : Pq E) → now < lo → Sorted lo q → (due now q ≡ []) × (not_due now q ≡ q)
  unfolding due not_due
  nothing_due now lo [] h s = (refl, refl)
  nothing_due now lo (p ∷ q) h (a, s) =
      let (d, n) = nothing_due now p.at_time q (omega (arith, a)) s in
      (rw later d, rw later (ap (λ r. p ∷ r) n))
    where
      later : leb p.at_time now ≡ false
      later = ground (arith, a, h)

  drain_lem :
      (fuel now lo : ℕ) (ready : List E) (q : Pq E)
      → Sorted lo q
      → length q < fuel
      → drain fuel now ready q ≡ some (ready ++ due now q, not_due now q)
  unfolding drain drain_round due not_due remove_if_ready
  drain_lem zero now lo ready q s few = absurd (omega arith)
  drain_lem (suc fuel) now lo ready [] s few = ap (λ r. some (r, [])) (sym (append-nil ready))
  drain_lem (suc fuel) now lo ready (p ∷ q) (a, s) few = elim (Bool-cases (leb p.at_time now)) [
    | inl yes_due ↦ rw yes_due (
        drain_lem fuel now p.at_time (ready ++ (p.event ∷ [])) q s (omega arith)
        ∙ ap (λ r. some (r, not_due now q)) (append_assoc ready (p.event ∷ []) (due now q)))
    | inr later ↦ rw later (
        sym (
          ap₂ (λ d n. some (ready ++ d, p ∷ n)) (none_left later).0 (none_left later).1
          ∙ ap (λ r. some (r, p ∷ q)) (append-nil ready)))
  ]
    where
      none_left : leb p.at_time now ≡ false → (due now q ≡ []) × (not_due now q ≡ q)
      none_left later = nothing_due now p.at_time q (ground (arith, later)) s

  first_call :
      (t : ℕ) (c : PqEntry E) (calls : Pq E)
      → those_at t (c ∷ []) ++ those_at t calls ≡ those_at t (c ∷ calls)
  unfolding those_at
  first_call t c calls = elim (Bool-cases (c.at_time == t)) [
    | inl now ↦ rw now refl
    | inr other ↦ rw other refl
  ]

  no_call : (t : ℕ) (r : List E) → those_at t [] ++ r ≡ r
  unfolding those_at
  no_call t r = refl

  timed_all_from :
      (t : ℕ) (q calls : Pq E)
      → Sorted 0 q
      → Sorted 0 (timed_all q calls)
        × (those_at t (timed_all q calls) ≡ those_at t q ++ those_at t calls)
  unfolding timed_all those_at
  timed_all_from t q [] s = (s, sym (append-nil (those_at t q)))
  timed_all_from t q (c ∷ calls) s =
      let (s', e) =
        timed_all_from t (add c.at_time c.event q) calls
          (add-Sorted 0 c.at_time c.event q (omega arith) s) in
      (
        s',
        e
            ∙ ap (λ r. r ++ those_at t calls) (those_at-add t 0 c.at_time c.event q s)
            ∙ append_assoc (those_at t q) (those_at t (c ∷ [])) (those_at t calls)
            ∙ ap (λ r. those_at t q ++ r) (first_call t c calls),
      )

  length-add : (t : ℕ) (e : E) (q : Pq E) → length (add t e q) ≡ suc (length q)
  unfolding add
  length-add t e [] = refl
  length-add t e (p ∷ q) = elim (Bool-cases (ltb t p.at_time)) [
    | inl before ↦ rw before refl
    | inr after ↦ rw after (ap suc (length-add t e q))
  ]

  length-timed_all : (q calls : Pq E) → length (timed_all q calls) ≡ length q + length calls
  unfolding timed_all
  length-timed_all q [] = omega arith
  length-timed_all q (c ∷ calls) =
      omega
        (arith, length-timed_all (add c.at_time c.event q) calls, length-add c.at_time c.event q)

  -- After any calls of timed on an empty timer queue, the queue is in the order of the times, and
  -- holds the events of each time in the order of their calls; the loop of event_loop then ends after
  -- at most one more round than there are calls, adds just the due events to the ready queue, in the
  -- order of the timer queue, and leaves just the others in the timer queue.
  pub timed_lem :
      (now t : ℕ) (ready : List E) (calls : Pq E)
      → Sorted 0 (timed_all [] calls)
        × (those_at t (timed_all [] calls) ≡ those_at t calls)
        × (drain (suc (length calls)) now ready (timed_all [] calls)
            ≡ some (ready ++ due now (timed_all [] calls), not_due now (timed_all [] calls)))
  timed_lem now t ready calls =
      let (s, e) = timed_all_from t [] calls tt in
      (
        s,
        e ∙ no_call t (those_at t calls),
        drain_lem (suc (length calls)) now 0 ready (timed_all [] calls) s
            (omega (arith, length-timed_all [] calls)),
      )
