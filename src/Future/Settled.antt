-- ===== src/Future/Settled.antt =====
-- Every caller of get runs with the value, once.
use simplified_os_kernel.Prelude.{
  ℕ, zero, suc, ◌+◌, ◌≤◌, ◌≡◌, refl, sym, ap, ap₂, ◌∙◌, subst, arith, true, some, List, [], ◌∷◌,
  ◌++◌, ◌>>=◌, map, length, append_assoc, append-nil, ◌⊎◌, inl, inr, ◌-◌, eq→==,
}
use simplified_os_kernel.Semaphore.{Semaphore, make}
use simplified_os_kernel.Future.{
  Future, new_future, signalled, set_value, get_value, run_work, run_ready, is_set, Op, gets, runs,
  step, run,
}
use simplified_os_kernel.Future.Waiting.{
  IsUnset, get_all, down_waits, down_takes, up_counts, up_wakes, get_all-IsUnset,
}

abbrev pub with_value : ℕ → List ℕ → List (ℕ × ℕ)
with_value v = map (λ work. (work, v))

with_value-append :
    (v : ℕ) (xs ys : List ℕ) → with_value v (xs ++ ys) ≡ with_value v xs ++ with_value v ys
with_value-append v [] ys = refl
with_value-append v (x ∷ xs) ys = ap (λ r. (x, v) ∷ r) (with_value-append v xs ys)

-- After it, the works that have run have run with the value, in the order of the calls; one caller is
-- ready, or none is left and the semaphore counts 1.
pub record IsSettled (v : ℕ) (callers done : List ℕ) (f : Future) : Type 0 where
  pub value : f.value ≡ v
  pub log : f.log ≡ with_value v done
  pub order : done ++ (f.ready ++ f.sem.waiting) ≡ callers
  pub turn :
      ((f.ready ≡ []) × (f.sem.waiting ≡ []) × (f.sem.count ≡ 1))
      ⊎ ((work : ℕ) × (f.ready ≡ work ∷ []) × (f.sem.count ≡ 0))

-- The callers of a run.
abbrev pub callers_of : List Op → List ℕ
callers_of [] = []
callers_of (gets work ∷ ops) = work ∷ callers_of ops
callers_of (runs ∷ ops) = callers_of ops

-- The value comes: the oldest caller is ready.
set_value-IsSettled :
    (v : ℕ) (callers : List ℕ) (f : Future)
    → IsUnset callers f
    → (f' : Future) × (set_value v f ≡ some f') × IsSettled v callers [] f'
unfolding set_value signalled
set_value-IsSettled v [] f u = (
  _,
  ap (λ r. r >>= signalled (record f { value = v })) (up_counts f.sem f.ready u.waiting),
  record {
    value = refl;
    log = u.log;
    order = ap₂ (λ r w. r ++ w) u.ready u.waiting;
    turn = inl (u.ready, u.waiting, omega (arith, u.count));
  },
)
set_value-IsSettled v (work ∷ callers) f u = (
  _,
  ap (λ r. r >>= signalled (record f { value = v }))
      (up_wakes f.sem f.ready work callers u.waiting u.count),
  record {
    value = refl;
    log = u.log;
    order = ap (λ r. (r ++ (work ∷ [])) ++ callers) u.ready;
    turn = inr (work, ap (λ r. r ++ (work ∷ [])) u.ready, u.count);
  },
)

-- A later caller takes the count, or waits its turn.
get_value-IsSettled :
    (v work : ℕ) (callers done : List ℕ) (f : Future)
    → IsSettled v callers done f
    → IsSettled v (callers ++ (work ∷ [])) done (get_value work f)
unfolding get_value
get_value-IsSettled v work callers done f h = elim (h.turn) [
  | inl (none_ready, none_waits, one) ↦
      subst
        (λ (r : Semaphore ℕ × List ℕ).
          IsSettled v (callers ++ (work ∷ [])) done (record f { sem = r.0; ready = r.1 }))
        (sym (down_takes work f.sem f.ready one))
        (record {
          value = h.value;
          log = h.log;
          order = with_none none_ready none_waits;
          turn = inr (work, ap (λ r. r ++ (work ∷ [])) none_ready, omega (arith, one));
        })
  | inr (w, one_ready, zero_count) ↦
      subst
        (λ (r : Semaphore ℕ × List ℕ).
          IsSettled v (callers ++ (work ∷ [])) done (record f { sem = r.0; ready = r.1 }))
        (sym (down_waits work f.sem f.ready zero_count))
        (record {
          value = h.value;
          log = h.log;
          order = longer;
          turn = inr (w, one_ready, zero_count);
        })
]
  where
    longer : done ++ (f.ready ++ (f.sem.waiting ++ (work ∷ []))) ≡ callers ++ (work ∷ [])
    longer =
        ap (λ r. done ++ r) (sym (append_assoc f.ready f.sem.waiting (work ∷ [])))
        ∙ sym (append_assoc done (f.ready ++ f.sem.waiting) (work ∷ []))
        ∙ ap (λ r. r ++ (work ∷ [])) h.order

    with_none :
        f.ready ≡ []
        → f.sem.waiting ≡ []
        → done ++ ((f.ready ++ (work ∷ [])) ++ f.sem.waiting) ≡ callers ++ (work ∷ [])
    with_none e e' =
        ap (λ r. done ++ r)
          (append_assoc f.ready (work ∷ []) f.sem.waiting
            ∙ ap (λ w. f.ready ++ ((work ∷ []) ++ w)) e'
            ∙ ap (λ w. f.ready ++ (w ++ (work ∷ []))) (sym e'))
        ∙ longer

-- The turn of a caller: the next one is ready.
run_ready-IsSettled :
    (v : ℕ) (callers done : List ℕ) (f : Future)
    → IsSettled v callers done f
    → (f' : Future) × (done' : List ℕ) × (run_ready f.ready f ≡ some f')
      × IsSettled v callers done' f'
      × (length f'.ready + length f'.sem.waiting ≡ length f.ready + length f.sem.waiting - 1)
unfolding run_ready run_work signalled
run_ready-IsSettled v callers done f h = elim (h.turn) [
  | inl (none_ready, none_waits, one) ↦ (
    f,
    done,
    ap (λ r. run_ready r f) none_ready,
    h,
    omega (arith, ap length none_ready, ap length none_waits),
  )
  | inr (work, one_ready, zero_count) ↦
      let (f', e, h', n) = turn work f.sem.waiting one_ready zero_count refl in
      (f', done ++ (work ∷ []), ap (λ r. run_ready r f) one_ready ∙ e, h', n)
]
  where
    ran : (work : ℕ) → f.log ++ ((work, f.value) ∷ []) ≡ with_value v (done ++ (work ∷ []))
    ran work =
        ap₂ (λ l x. l ++ ((work, x) ∷ [])) h.log h.value
        ∙ sym (with_value-append v done (work ∷ []))

    left : (work : ℕ) → f.ready ≡ work ∷ [] → (done ++ (work ∷ [])) ++ f.sem.waiting ≡ callers
    left work e =
        append_assoc done (work ∷ []) f.sem.waiting
        ∙ ap (λ r. done ++ (r ++ f.sem.waiting)) (sym e)
        ∙ h.order

    turn :
        (work : ℕ) (ws : List ℕ)
        → f.ready ≡ work ∷ []
        → f.sem.count ≡ 0
        → f.sem.waiting ≡ ws
        → (f' : Future) × (run_work work [] f ≡ some f')
          × IsSettled v callers (done ++ (work ∷ [])) f'
          × (length f'.ready + length f'.sem.waiting ≡ length f.ready + length f.sem.waiting - 1)
    turn work [] e zero_count none_waits = (
      _,
      ap (λ r. r >>= signalled (record f { log = f.log ++ ((work, f.value) ∷ []) }))
          (up_counts f.sem [] none_waits),
      record {
        value = h.value;
        log = ran work;
        order = left work e;
        turn = inl (refl, none_waits, omega (arith, zero_count));
      },
      omega (arith, ap length e, ap length none_waits),
    )
    turn work (w ∷ rest) e zero_count waits = (
      _,
      ap (λ r. r >>= signalled (record f { log = f.log ++ ((work, f.value) ∷ []) }))
          (up_wakes f.sem [] w rest waits zero_count),
      record {
        value = h.value;
        log = ran work;
        order = ap (λ r. (done ++ (work ∷ [])) ++ r) (sym waits) ∙ left work e;
        turn = inr (w, refl, zero_count);
      },
      omega (arith, ap length e, ap length waits),
    )

-- Calls of get, and turns, in any order.
run-IsSettled :
    (v : ℕ) (ops : List Op) (callers done : List ℕ) (f : Future)
    → IsSettled v callers done f
    → (f' : Future) × (done' : List ℕ) × (run ops f ≡ some f')
      × IsSettled v (callers ++ callers_of ops) done' f'
unfolding run step
run-IsSettled v [] callers done f h = (f, done, refl, rw (append-nil callers) h)
run-IsSettled v (gets work ∷ ops) callers done f h =
    let (f', done', e, h') =
      run-IsSettled v ops (callers ++ (work ∷ [])) done (get_value work f)
        (get_value-IsSettled v work callers done f h) in
    (
      f',
      done',
      e,
      subst (λ c. IsSettled v c done' f') (append_assoc callers (work ∷ []) (callers_of ops)) h',
    )
run-IsSettled v (runs ∷ ops) callers done f h =
    let (f₁, done₁, e₁, h₁, _) = run_ready-IsSettled v callers done f h in
    let (f', done', e, h') = run-IsSettled v ops callers done₁ f₁ h₁ in
    (f', done', ap (λ r. r >>= run ops) e₁ ∙ e, h')

-- As many turns as there are callers left.
pub turns : ℕ → List Op
turns zero = []
turns (suc n) = runs ∷ turns n

drained :
    (v n : ℕ) (callers done : List ℕ) (f : Future)
    → IsSettled v callers done f
    → length f.ready + length f.sem.waiting ≤ n
    → (f' : Future) × (run (turns n) f ≡ some f')
      × (f'.log ≡ with_value v callers)
      × (is_set f' ≡ true)
unfolding run step turns is_set
drained v zero callers done f h few = elim (h.turn) [
  | inl (none_ready, none_waits, one) ↦ (
    f,
    refl,
    h.log
        ∙ ap (with_value v) (
            sym (append-nil done)
            ∙ ap₂ (λ r w. done ++ (r ++ w)) (sym none_ready) (sym none_waits)
            ∙ h.order),
    eq→== f.sem.count 1 one,
  )
  | inr (work, one_ready, zero_count) ↦ absurd (omega (arith, few, ap length one_ready))
]
drained v (suc n) callers done f h few =
    let (f₁, done₁, e₁, h₁, n₁) = run_ready-IsSettled v callers done f h in
    let (f', e, l, s) = drained v n callers done₁ f₁ h₁ (omega (arith, few, n₁)) in
    (f', ap (λ r. r >>= run (turns n)) e₁ ∙ e, l, s)

new_future-IsUnset : IsUnset [] new_future
unfolding new_future make
new_future-IsUnset = record { count = refl; waiting = refl; ready = refl; log = refl }

-- For a future that callers wait for, then one call of set, and then any further calls of get and
-- turns of ready events, in any order: before the set no work has run; no assertion fails; and once
-- as many turns have passed as there are callers left, each caller's work has run once, with the
-- value, in the order of the calls, and the future tells that it is set.
pub set_value_lem :
    (v : ℕ) (before : List ℕ) (after : List Op)
    → ((get_all before new_future).log ≡ [])
      × ((f₁ f₂ f₃ : Future) × (set_value v (get_all before new_future) ≡ some f₁)
          × (run after f₁ ≡ some f₂)
          × (run (turns (length f₂.ready + length f₂.sem.waiting)) f₂ ≡ some f₃)
          × (f₃.log ≡ with_value v (before ++ callers_of after))
          × (is_set f₃ ≡ true))
set_value_lem v before after =
    let unset = get_all-IsUnset [] before new_future new_future-IsUnset in
    let (f₁, e₁, h₁) = set_value-IsSettled v before (get_all before new_future) unset in
    let (f₂, done, e₂, h₂) = run-IsSettled v after before [] f₁ h₁ in
    let (f₃, e₃, l, s) =
      drained v (length f₂.ready + length f₂.sem.waiting) (before ++ callers_of after) done f₂ h₂
        (omega arith) in
    (unset.log, (f₁, f₂, f₃, e₁, e₂, e₃, l, s))
