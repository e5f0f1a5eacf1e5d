-- ===== src/Join.antt =====
-- `join` of kernel/sys.cc, for one parent: over its children, the stack of kernel/pcb.h, and the exit_future of each
-- process. `none` is a failed ASSERT of a semaphore, or a turn of the ready queue when nothing is ready.
pub mod Waits
mod Tests
use simplified_os_kernel.Prelude.{
  ℕ, Bool, false, Option, none, some, List, [], ◌∷◌, ◌==◌, if◌then◌else◌, ◌>>=◌,
}
use simplified_os_kernel.Children.{Children, is_childless, peek_child, remove_child}
use simplified_os_kernel.Future.{Future, set_value, get_value, run_work}

pub record Family : Type 0 where
  pub children : Children
  pub exit_future : ℕ → Future
  pub interrupts : Bool

-- The call returns a value, or has gone to event_loop.
pub data Outcome : Type 0 where
  returned : (value : ℕ) → Outcome
  in_event_loop : Outcome

abbrev pub put_future : ℕ → Future → Family → ℕ → Future
put_future child f s j = if j == child then f else s.exit_future j

-- `child->exit_future.get(...)`, if the child is not null; `pcb` names the closure that resumes the parent.
unfoldable pub get_exit : ℕ → Option ℕ → Family → Family
get_exit pcb none s = s
get_exit pcb (some child) s = record s {
  exit_future = put_future child (get_value pcb (s.exit_future child)) s;
}

unfoldable pub wait_for : ℕ → Option ℕ → Family → Outcome × Family
unfolding get_exit
wait_for pcb child s = (in_event_loop, record (get_exit pcb child s) { interrupts = false })

unfoldable pub join : ℕ → Family → Outcome × Family
join pcb s =
    if is_childless s.children
    then (returned 0xFFFF_FFFF, s)
    else wait_for pcb (peek_child s.children) s

-- `exit` of a child: `exit_future.set(status)`.
unfoldable pub exit_child : ℕ → ℕ → Family → Option Family
exit_child status child s = set_value status (s.exit_future child) >>= λ f.
    some (record s { exit_future = put_future child f s })

-- The process that goes on, and its eax.
pub record Resumed : Type 0 where
  pub pcb : ℕ
  pub eax : ℕ

-- The closure that `join` hands to the future, when its turn comes: `pcb`, which it captured, goes on.
unfoldable pub resumed : ℕ → ℕ → Family → Future → Option (Resumed × Family)
resumed pcb child s f = some (
  record { pcb = pcb; eax = f.value },
  record s { children = (remove_child s.children).1; exit_future = put_future child f s },
)

unfoldable pub run_closure : ℕ → List ℕ → Family → Option (Resumed × Family)
run_closure child [] s = none
run_closure child (pcb ∷ rest) s = run_work pcb rest (s.exit_future child) >>= resumed pcb child s

unfoldable pub run_exit : ℕ → Family → Option (Resumed × Family)
unfolding run_closure
run_exit child s = run_closure child (s.exit_future child).ready s
