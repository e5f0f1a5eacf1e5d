-- ===== src/Queue.antt =====
-- `Queue` of kernel/queue.h, as its pointers: a node is its address, 0 is null, and `next` is the field of every
-- node. Each call is one step, as `lock` makes it.
pub mod Chain
pub mod Fifo
mod Tests
use simplified_os_kernel.Prelude.{
  ℕ, zero, suc, Option, none, some, List, [], ◌∷◌, ◌==◌, if◌then◌else◌,
}
use simplified_os_kernel.Machine.{write}

pub record Queue : Type 0 where
  pub first : ℕ
  pub last : ℕ
  pub next : ℕ → ℕ

unfoldable pub new_queue : (ℕ → ℕ) → Queue
new_queue next = record { first = 0; last = 0; next = next }

unfoldable pub add : ℕ → Queue → Queue
add t q =
    let next = write q.next t 0 in
    if q.first == 0
    then record { first = t; last = t; next = next }
    else record { first = q.first; last = t; next = write next q.last t }

-- The node that is taken out, or null.
unfoldable pub remove : Queue → ℕ × Queue
remove q = if q.first == 0 then (0, q) else (
  q.first,
  record q { first = q.next q.first; last = if q.next q.first == 0 then 0 else q.last },
)

unfoldable pub remove_all : Queue → ℕ × Queue
remove_all q = (q.first, record q { first = 0; last = 0 })
