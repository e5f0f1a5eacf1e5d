-- ===== src/Semaphore/Tests.antt =====
-- Three calls of `down` and one of `up` at a semaphore of count 1.
use simplified_os_kernel.Prelude.{ℕ, ◌+◌, ◌≡◌, refl, some, List, [], ◌∷◌}
use simplified_os_kernel.Semaphore.{Semaphore, make, down, up}
use simplified_os_kernel.Semaphore.Fifo.{Op, downs, ups, run, callers, signals, Served, run_lem}

abbrev calls : List (Op ℕ)
calls = downs 7 ∷ downs 8 ∷ downs 9 ∷ ups ∷ []

run-calls : run (make 1, []) calls ≡ some (record { count = 0; waiting = 9 ∷ [] }, 7 ∷ 8 ∷ [])
unfolding run make down up
run-calls = refl

run_lem_example :
    (r : Semaphore ℕ × List ℕ) × (run (make 1, []) calls ≡ some r)
    × Served (callers calls) (1 + signals calls) r
run_lem_example = run_lem 1 calls
