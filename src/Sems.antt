-- ===== src/Sems.antt =====
-- The semaphore calls of kernel/sys.cc: [1001] sem, [1002] up, [1003] down and [1007] sem_close. A process has an
-- array of 100 pointers, from a base on; the event that `down` schedules resumes the process, and is named
-- by it. `none` is a failed ASSERT, or the use of a deleted object.
pub mod Calls
pub mod Wait
mod Tests
use simplified_os_kernel.Prelude.{
  ℕ, zero, ◌+◌, Bool, true, false, Option, none, some, List, [], ◌∷◌, length, if◌then◌else◌,
}
use simplified_os_kernel.Prelude.Words.{minus_one}
use simplified_os_kernel.Semaphore
use simplified_os_kernel.Semaphore.{Semaphore, down, up}
use simplified_os_kernel.Handles.{
  Handles, pointer, is_bad, assign_new, clear, hold, seek, target, set_content,
}

-- The value of the call, or the process has gone to the event loop, and runs again by an event.
pub data Outcome : Type 0 where
  returns : (v : ℕ) → Outcome
  waits : Outcome

pub record Sems : Type 0 where
  pub handles : Handles (Semaphore ℕ)
  pub ready : List ℕ

-- The handler's end, after its last change of the pointers.
abbrev pub finish : Outcome → List ℕ → Option (Handles (Semaphore ℕ)) → Option (Outcome × Sems)
finish o ready none = none
finish o ready (some h) = some (o, record { handles = h; ready = ready })

unfoldable pub sem_at : ℕ → ℕ → Sems → Option ℕ → Option (Outcome × Sems)
sem_at base n st none = some (returns minus_one, st)
sem_at base n st (some i) =
    finish (returns i) st.ready (assign_new (Semaphore.make n) st.handles (base + i))

unfoldable pub sem : ℕ → ℕ → Sems → Option (Outcome × Sems)
sem base n st = sem_at base n st (seek st.handles base 0 100)

-- `semaphore->up()` on the local copy of the pointer, in the cell `l`, and the end of the local.
unfoldable pub up_done :
    Handles (Semaphore ℕ) → ℕ → ℕ → Option (Semaphore ℕ × List ℕ) → Option (Outcome × Sems)
up_done h l p none = none
up_done h l p (some r) = finish (returns 0) r.1 (clear (set_content h p r.0) l)

unfoldable pub up_object :
    Handles (Semaphore ℕ) → ℕ → List ℕ → Option (ℕ × Semaphore ℕ) → Option (Outcome × Sems)
up_object h l ready none = none
up_object h l ready (some t) = up_done h l t.0 (up t.1 ready)

unfoldable pub up_local : ℕ → List ℕ → Option (Handles (Semaphore ℕ)) → Option (Outcome × Sems)
up_local l ready none = none
up_local l ready (some h) = up_object h l ready (target h (pointer h l))

unfoldable pub sys_up : ℕ → ℕ → Sems → Option (Outcome × Sems)
sys_up base i st =
    if is_bad st.handles base 100 i
    then some (returns minus_one, st)
    else up_local (length st.handles.cells) st.ready (hold st.handles (base + i))

-- `semaphore->down(…)`. The handler goes to `event_loop`, which does not return, so its local pointer stays.
unfoldable pub down_object :
    ℕ → Handles (Semaphore ℕ) → List ℕ → Option (ℕ × Semaphore ℕ) → Option (Outcome × Sems)
down_object pid h ready none = none
down_object pid h ready (some t) =
    finish waits (down pid t.1 ready).1 (some (set_content h t.0 (down pid t.1 ready).0))

unfoldable pub down_local :
    ℕ → ℕ → List ℕ → Option (Handles (Semaphore ℕ)) → Option (Outcome × Sems)
down_local pid l ready none = none
down_local pid l ready (some h) = down_object pid h ready (target h (pointer h l))

unfoldable pub sys_down : ℕ → ℕ → ℕ → Sems → Option (Outcome × Sems)
sys_down pid base i st =
    if is_bad st.handles base 100 i
    then some (returns minus_one, st)
    else down_local pid (length st.handles.cells) st.ready (hold st.handles (base + i))

unfoldable pub sem_close : ℕ → ℕ → Sems → Option (Outcome × Sems)
sem_close base i st =
    if is_bad st.handles base 100 i
    then some (returns minus_one, st)
    else finish (returns 0) st.ready (clear st.handles (base + i))
