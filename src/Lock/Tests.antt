-- ===== src/Lock/Tests.antt =====
-- Two threads and one lock.
use simplified_os_kernel.Prelude.{ℕ, ◌≡◌, ◌≢◌, ◌⊎◌, refl, true, false, none, some}
use simplified_os_kernel.Lock.{
  SpinLock, lock, trying, inside, Threads, move, lock_round, begin_guard, round, start, Reach,
  fresh, after,
}
use simplified_os_kernel.Lock.Exclusion.{exclusion}

abbrev free_lock : SpinLock
free_lock = record { taken = false }

gets_free : lock 1 free_lock ≡ some (record { taken = true })
unfolding lock
gets_free = refl

abbrev one_tries : Threads
one_tries = record start { place = move 1 trying (start.place) }

abbrev two_try : Threads
two_try = record {
  it = (lock_round 1 one_tries).it;
  place = move 2 trying (lock_round 1 one_tries).place;
}

two_try-Reach : Reach two_try
unfolding lock_round start
two_try-Reach = after (begin_guard 2 refl) (after (round 1 refl) (after (begin_guard 1 refl) fresh))

exclusion_example :
    ((two_try.it.taken ≡ false)
      × ((i : ℕ) → two_try.place i ≢ inside)
      × ((i : ℕ) → (lock_round i two_try).place i ≡ inside))
    ⊎ ((two_try.it.taken ≡ true)
        × (h : ℕ) × (two_try.place h ≡ inside)
        × ((i : ℕ) → two_try.place i ≡ inside → i ≡ h)
        × ((n : ℕ) → lock n two_try.it ≡ none))
exclusion_example = exclusion two_try-Reach
