-- ===== src/Future/Waiting.antt =====
-- A future before its value is set, and the calls of its semaphore.
use simplified_os_kernel.Prelude.{
  ℕ, ◌+◌, ◌≡◌, refl, sym, ap, subst, arith, some, List, [], ◌∷◌, ◌++◌, append_assoc, append-nil,
  ◌-◌, le→ltb, lt→ltb, eq→==,
}
use simplified_os_kernel.Semaphore.{Semaphore, down, wake, up}
use simplified_os_kernel.Future.{Future, get_value}

-- Before the value is set, the callers wait, and none has run.
pub record IsUnset (callers : List ℕ) (f : Future) : Type 0 where
  pub count : f.sem.count ≡ 0
  pub waiting : f.sem.waiting ≡ callers
  pub ready : f.ready ≡ []
  pub log : f.log ≡ []

-- One after the other, the callers of `get` come to wait.
unfoldable pub get_all : List ℕ → Future → Future
get_all [] f = f
get_all (work ∷ works) f = get_all works (get_value work f)

pub down_waits :
    (w : ℕ) (s : Semaphore ℕ) (r : List ℕ)
    → s.count ≡ 0
    → down w s r ≡ (record s { waiting = s.waiting ++ (w ∷ []) }, r)
unfolding down
down_waits w s r e = rw (le→ltb 0 s.count (omega (arith, e))) refl

pub down_takes :
    (w : ℕ) (s : Semaphore ℕ) (r : List ℕ)
    → s.count ≡ 1
    → down w s r ≡ (record s { count = s.count - 1 }, r ++ (w ∷ []))
unfolding down
down_takes w s r e = rw (lt→ltb 0 s.count (omega (arith, e))) refl

pub up_counts :
    (s : Semaphore ℕ) (r : List ℕ)
    → s.waiting ≡ []
    → up s r ≡ some (record s { count = s.count + 1 }, r)
unfolding up wake
up_counts s r e = rw (e, up) refl

pub up_wakes :
    (s : Semaphore ℕ) (r : List ℕ) (w : ℕ) (rest : List ℕ)
    → s.waiting ≡ w ∷ rest
    → s.count ≡ 0
    → up s r ≡ some (record s { waiting = rest }, r ++ (w ∷ []))
unfolding up wake
up_wakes s r w rest e c = rw (e, up, eq→== s.count 0 c) refl

get_value-IsUnset :
    (callers : List ℕ) (work : ℕ) (f : Future)
    → IsUnset callers f
    → IsUnset (callers ++ (work ∷ [])) (get_value work f)
unfolding get_value
get_value-IsUnset callers work f u =
    subst
      (λ (r : Semaphore ℕ × List ℕ).
        IsUnset (callers ++ (work ∷ [])) (record f { sem = r.0; ready = r.1 }))
      (sym (down_waits work f.sem f.ready u.count))
      (record {
        count = u.count;
        waiting = ap (λ w. w ++ (work ∷ [])) u.waiting;
        ready = u.ready;
        log = u.log;
      })

pub get_all-IsUnset :
    (callers works : List ℕ) (f : Future)
    → IsUnset callers f
    → IsUnset (callers ++ works) (get_all works f)
unfolding get_all
get_all-IsUnset callers [] f u = rw (append-nil callers) u
get_all-IsUnset callers (work ∷ works) f u =
    subst (λ c. IsUnset c (get_all works (get_value work f)))
      (append_assoc callers (work ∷ []) works)
      (get_all-IsUnset (callers ++ (work ∷ [])) works (get_value work f)
        (get_value-IsUnset callers work f u))
