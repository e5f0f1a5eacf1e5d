-- ===== src/Future.antt =====
-- kernel/future.h: a value that is set once and got by any number of callers, over a semaphore and the
-- ready queue of kernel/events.cc. A caller is named by its `work`; the log tells which works have run, and with what. `none` is
-- the failed ASSERT of a semaphore.
pub mod Waiting
pub mod Settled
mod Tests
use simplified_os_kernel.Prelude.{
  ℕ, zero, suc, Bool, Option, none, some, List, [], ◌∷◌, ◌++◌, ◌==◌, ◌>>=◌,
}
use simplified_os_kernel.Semaphore.{Semaphore, make, down, up}

pub record Future : Type 0 where
  pub sem : Semaphore ℕ
  pub value : ℕ
  pub ready : List ℕ
  pub log : List (ℕ × ℕ)

unfoldable pub new_future : Future
unfolding make
new_future = record { sem = make 0; value = 0; ready = []; log = [] }

unfoldable pub signalled : Future → Semaphore ℕ × List ℕ → Option Future
signalled f r = some (record f { sem = r.0; ready = r.1 })

unfoldable pub set_value : ℕ → Future → Option Future
set_value v f = up f.sem f.ready >>= signalled (record f { value = v })

unfoldable pub get_value : ℕ → Future → Future
get_value work f = let r = down work f.sem f.ready in record f { sem = r.0; ready = r.1 }

-- The closure that `get` hands to the semaphore, when its turn comes.
unfoldable pub run_work : ℕ → List ℕ → Future → Option Future
run_work work rest f =
    up f.sem rest >>= signalled (record f { log = f.log ++ ((work, f.value) ∷ []) })

-- The first event of the ready queue; an empty queue is left as it is.
unfoldable pub run_ready : List ℕ → Future → Option Future
run_ready [] f = some f
run_ready (work ∷ rest) f = run_work work rest f

unfoldable pub is_set : Future → Bool
is_set f = f.sem.count == 1

-- What can happen to a future that is set.
pub data Op : Type 0 where
  gets : (work : ℕ) → Op
  runs : Op

unfoldable pub step : Op → Future → Option Future
step (gets work) f = some (get_value work f)
step runs f = run_ready f.ready f

unfoldable pub run : List Op → Future → Option Future
run [] f = some f
run (op ∷ ops) f = step op f >>= run ops
