-- ===== src/Future/Tests.antt =====
-- Two callers before the value, one after it.
use simplified_os_kernel.Prelude.{
  ℕ, ◌+◌, ◌≡◌, refl, true, some, [], ◌∷◌, length, ◌>>=◌, Option, List,
}
use simplified_os_kernel.Semaphore.{make, down, up, wake}
use simplified_os_kernel.Future.{
  Future, new_future, set_value, get_value, run_work, run_ready, signalled, is_set, gets, runs,
  step, run,
}
use simplified_os_kernel.Future.Waiting.{get_all}
use simplified_os_kernel.Future.Settled.{turns, with_value, set_value_lem}

log_of : Future → Option (List (ℕ × ℕ))
log_of f = some f.log

three_callers :
    set_value 7 (get_all (1 ∷ 2 ∷ []) new_future)
      >>= run (runs ∷ gets 3 ∷ runs ∷ runs ∷ [])
      >>= log_of
    ≡ some ((1, 7) ∷ (2, 7) ∷ (3, 7) ∷ [])
unfolding log_of set_value get_all new_future get_value run_work run_ready signalled step run make
    down up wake
three_callers = refl

set_value_lem_example :
    ((get_all (1 ∷ 2 ∷ []) new_future).log ≡ [])
    × ((f₁ f₂ f₃ : Future) × (set_value 7 (get_all (1 ∷ 2 ∷ []) new_future) ≡ some f₁)
        × (run (runs ∷ gets 3 ∷ []) f₁ ≡ some f₂)
        × (run (turns (length f₂.ready + length f₂.sem.waiting)) f₂ ≡ some f₃)
        × (f₃.log ≡ with_value 7 (1 ∷ 2 ∷ 3 ∷ []))
        × (is_set f₃ ≡ true))
set_value_lem_example = set_value_lem 7 (1 ∷ 2 ∷ []) (runs ∷ gets 3 ∷ [])
