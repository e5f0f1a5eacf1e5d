-- ===== src/Lock/Exclusion.antt =====
-- Who is in the lock: at most one thread, and the lock is taken when one is.
use simplified_os_kernel.Prelude.{
  ℕ, zero, suc, ◌≡◌, ◌≢◌, refl, sym, ap, ◌∙◌, true, false, none, if◌then◌else◌, eq→==, ne→==, ◌⊎◌,
  inl, inr,
}
use native.Mathlib.Decide.{ℕ_discrete}
use simplified_os_kernel.Lock.{
  SpinLock, exchange, set, lock, unlock, Place, outside, trying, inside, Threads, move, lock_round,
  end_guard, Step, begin_guard, round, leave, start, Reach, fresh, after,
}

-- Nobody is in, and the lock is free; or one thread is, and the lock is taken.
abbrev pub IsExclusive : Threads → Type 0
IsExclusive s =
    ((s.it.taken ≡ false) × ((i : ℕ) → s.place i ≢ inside))
    ⊎ ((s.it.taken ≡ true)
        × (h : ℕ) × (s.place h ≡ inside)
        × ((i : ℕ) → s.place i ≡ inside → i ≡ h))

out_in : outside ≢ inside
out_in e = cc e

try_in : trying ≢ inside
try_in e = cc e

-- A thread that moves to a place that is not in the lock is not in it, and no other thread moves.
moved :
    (i : ℕ) (p : Place) (place : ℕ → Place)
    → p ≢ inside
    → (j : ℕ) → move i p place j ≡ inside
    → (j ≢ i) × (place j ≡ inside)
moved i p place other j e = elim (ℕ_discrete j i) [
  | yes same ↦ absurd (other (sym (ap (λ b. if b then p else place j) (eq→== j i same)) ∙ e))
  | no differ ↦ (differ, sym (ap (λ b. if b then p else place j) (ne→== j i differ)) ∙ e)
]

stays :
    (i h : ℕ) (p : Place) (place : ℕ → Place) → h ≢ i → place h ≡ inside → move i p place h ≡ inside
stays i h p place differ e = ap (λ b. if b then p else place h) (ne→== h i differ) ∙ e

arrives : (i : ℕ) (p : Place) (place : ℕ → Place) → move i p place i ≡ p
arrives i p place = ap (λ b. if b then p else place i) (eq→== i i refl)

-- A move of a thread that is not in the lock to a place that is not, either.
elsewhere :
    (it : SpinLock) (i : ℕ) (p : Place) (place : ℕ → Place)
    → p ≢ inside
    → place i ≢ inside
    → IsExclusive (record { it = it; place = place })
    → IsExclusive (record { it = it; place = move i p place })
elsewhere it i p place other was (inl (free, nobody)) =
    inl (free, λ j e. nobody j (moved i p place other j e).1)
elsewhere it i p place other was (inr (taken, h, in_it, only)) = inr (
  taken,
  h,
  stays i h p place (λ e. was (ap place (sym e) ∙ in_it)) in_it,
  λ j e. only j (moved i p place other j e).1,
)

not_in : (p q : Place) → p ≡ q → q ≢ inside → p ≢ inside
not_in p q e other f = other (sym e ∙ f)

round-IsExclusive :
    (s : Threads) (i : ℕ) → s.place i ≡ trying → IsExclusive s → IsExclusive (lock_round i s)
unfolding lock_round exchange
round-IsExclusive s i at (inl (free, nobody)) = rw free (
    inr (
      refl,
      i,
      arrives i inside s.place,
      λ j e. elim (ℕ_discrete j i) [
        | yes same ↦ same
        | no differ ↦
            absurd
              (nobody j (sym (ap (λ b. if b then inside else s.place j) (ne→== j i differ)) ∙ e))
      ],
    ))
round-IsExclusive s i at (inr (taken, h, in_it, only)) = rw taken (
    elsewhere (record { taken = true }) i trying s.place try_in
      (not_in (s.place i) trying at try_in) (inr (refl, h, in_it, only)))

step-IsExclusive : {s t : Threads} → Step s t → IsExclusive s → IsExclusive t
unfolding end_guard unlock set
step-IsExclusive {s} (begin_guard i at) h =
    elsewhere s.it i trying s.place try_in (not_in (s.place i) outside at out_in) h
step-IsExclusive {s} (round i at) h = round-IsExclusive s i at h
step-IsExclusive {s} (leave i at) (inl (free, nobody)) = absurd (nobody i at)
step-IsExclusive {s} (leave i at) (inr (taken, h, in_it, only)) =
    inl (
      refl,
      λ j e. let m = moved i outside s.place out_in j e in m.0 (only j m.1 ∙ sym (only i at)),
    )

reach-IsExclusive : {s : Threads} → Reach s → IsExclusive s
unfolding start
reach-IsExclusive fresh = inl (refl, λ i e. out_in e)
reach-IsExclusive (after step r) = step-IsExclusive step (reach-IsExclusive r)

never : (n : ℕ) (it : SpinLock) → it.taken ≡ true → lock n it ≡ none
unfolding lock exchange
never zero it e = refl
never (suc n) it e = rw e (never n (record { taken = true }) refl)

gets_in : (s : Threads) → s.it.taken ≡ false → (i : ℕ) → (lock_round i s).place i ≡ inside
unfolding lock_round exchange
gets_in s free i = rw free (arrives i inside s.place)

-- In every state that the threads reach from a free lock, by steps in any order: either no thread is
-- behind the constructor of a LockGuard, and the next round of each thread that tries gets it in; or
-- exactly one thread is, and while it stays there `lock` of another guard for the same lock, by that
-- thread too, does not end in any number of rounds.
pub exclusion :
    {s : Threads}
    → Reach s
    → ((s.it.taken ≡ false)
        × ((i : ℕ) → s.place i ≢ inside)
        × ((i : ℕ) → (lock_round i s).place i ≡ inside))
      ⊎ ((s.it.taken ≡ true)
          × (h : ℕ) × (s.place h ≡ inside)
          × ((i : ℕ) → s.place i ≡ inside → i ≡ h)
          × ((n : ℕ) → lock n s.it ≡ none))
exclusion {s} r = elim (reach-IsExclusive r) [
  | inl (free, nobody) ↦ inl (free, nobody, gets_in s free)
  | inr (taken, h, in_it, only) ↦ inr (taken, h, in_it, only, λ n. never n s.it taken)
]
