-- ===== src/Semaphore.antt =====
-- kernel/semaphore.h and kernel/semaphore.cc, over the ready queue of kernel/events.cc. An event is
-- any value `E`: what the kernel runs when the event's turn comes. `lock` makes each call one step;
-- `none` is the failed ASSERT of `up`.
pub mod Fifo
mod Tests
use simplified_os_kernel.Prelude.{
  ℕ, ◌+◌, ◌-◌, Bool, true, false, Option, none, some, List, [], ◌∷◌, ◌++◌, ltb, ◌==◌, if◌then◌else◌,
}

module _ {ℓ} (E : Type ℓ) where
  -- The queue `waiting`, oldest first, and the 64-bit count.
  pub record Semaphore : Type ℓ where
    pub count : ℕ
    pub waiting : List E

module _ {ℓ} {E : Type ℓ} where
  unfoldable pub make : ℕ → Semaphore E
  make n = record { count = n; waiting = [] }

  -- The semaphore and `ready_queue` after `down`.
  unfoldable pub down : E → Semaphore E → List E → Semaphore E × List E
  down e s ready =
      if ltb 0 s.count
      then (record s { count = s.count - 1 }, ready ++ (e ∷ []))
      else (record s { waiting = s.waiting ++ (e ∷ []) }, ready)

  unfoldable pub wake : Semaphore E → List E → List E → Option (Semaphore E × List E)
  wake s [] ready = some (record s { count = s.count + 1 }, ready)
  wake s (e ∷ rest) ready =
      if s.count == 0 then some (record s { waiting = rest }, ready ++ (e ∷ [])) else none

  unfoldable pub up : Semaphore E → List E → Option (Semaphore E × List E)
  unfolding wake
  up s ready = wake s s.waiting ready

  -- The coroutine's quick path: true if it took a count, so that the caller need not wait.
  unfoldable pub await_ready : Semaphore E → Bool × Semaphore E
  await_ready s = if ltb 0 s.count then (true, record s { count = s.count - 1 }) else (false, s)
