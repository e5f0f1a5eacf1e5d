-- ===== src/Lock.antt =====
-- `SpinLock` and `LockGuard` of kernel/atomic.h. `Atomic<bool>` is sequentially consistent, so each exchange and
-- each store is one step, in any order of the threads, which are the processors.
pub mod Exclusion
mod Tests
use simplified_os_kernel.Prelude.{
  ℕ, zero, suc, ◌≡◌, Bool, true, false, Option, none, some, List, ◌==◌, if◌then◌else◌,
}

-- `Atomic<bool>`, and `SpinLock`, which is one.
pub record SpinLock : Type 0 where
  pub taken : Bool

unfoldable pub new_lock : SpinLock
new_lock = record { taken = false }

unfoldable pub exchange : Bool → SpinLock → Bool × SpinLock
exchange v it = (it.taken, record { taken = v })

unfoldable pub set : Bool → SpinLock → SpinLock
set v it = record { taken = v }

-- At most `n` rounds of the loop of `lock`, when no other thread has a step.
unfoldable pub lock : ℕ → SpinLock → Option SpinLock
unfolding exchange
lock zero it = none
lock (suc n) it =
    let r = exchange true it in let rest = lock n r.1 in if r.0 then rest else some r.1

unfoldable pub unlock : SpinLock → SpinLock
unfolding set
unlock it = set false it

-- A thread is not in a LockGuard of the lock, in the loop of its constructor, or behind that.
pub data Place : Type 0 where
  outside : Place
  trying : Place
  inside : Place

pub record Threads : Type 0 where
  pub it : SpinLock
  pub place : ℕ → Place

abbrev pub move : ℕ → Place → (ℕ → Place) → ℕ → Place
move i p place j = if j == i then p else place j

-- One round of the loop in `lock`, by thread `i`.
unfoldable pub lock_round : ℕ → Threads → Threads
unfolding exchange
lock_round i s =
    let r = exchange true s.it in
    record { it = r.1; place = move i (if r.0 then trying else inside) s.place }

-- The end of a LockGuard of thread `i`.
unfoldable pub end_guard : ℕ → Threads → Threads
unfolding unlock
end_guard i s = record { it = unlock s.it; place = move i outside s.place }

pub data Step (s : Threads) : Threads → Type 0 where
  begin_guard : (i : ℕ) → s.place i ≡ outside → Step s (record s { place = move i trying s.place })
  round : (i : ℕ) → s.place i ≡ trying → Step s (lock_round i s)
  leave : (i : ℕ) → s.place i ≡ inside → Step s (end_guard i s)

unfoldable pub start : Threads
unfolding new_lock
start = record { it = new_lock; place = λ i. outside }

pub data Reach : Threads → Type 0 where
  fresh : Reach start
  after : {s t : Threads} → Step s t → Reach s → Reach t
