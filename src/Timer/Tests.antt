-- ===== src/Timer/Tests.antt =====
-- Three timed events, two for the same time.
use simplified_os_kernel.Prelude.{ℕ, some, ◌++◌, ◌≡◌, refl, [], ◌∷◌}
use simplified_os_kernel.Timer.{Pq, add, remove_if_ready, drain_round, drain}
use simplified_os_kernel.Timer.Due.{Sorted, those_at, due, not_due, timed_all, timed_lem}

abbrev calls : Pq ℕ
calls =
    record { at_time = 5; event = 1 }
    ∷ record { at_time = 3; event = 2 }
    ∷ record { at_time = 5; event = 3 }
    ∷ []

drained : drain 4 5 (9 ∷ []) (timed_all [] calls) ≡ some (9 ∷ 2 ∷ 1 ∷ 3 ∷ [], [])
unfolding drain drain_round remove_if_ready timed_all add
drained = refl

timed_lem_example :
    Sorted 0 (timed_all [] calls)
    × (those_at 5 (timed_all [] calls) ≡ those_at 5 calls)
    × (drain 4 4 [] (timed_all [] calls)
        ≡ some ([] ++ due 4 (timed_all [] calls), not_due 4 (timed_all [] calls)))
timed_lem_example = timed_lem 4 5 [] calls
