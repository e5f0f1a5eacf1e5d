-- ===== src/Vme.antt =====
-- `VME` and `VMEQueue` of kernel/queue.h: the regions of a process's address space. The doubly
-- linked list is the list of its nodes from `first` to `last`; a walk by `prev` runs over its
-- reverse. `size` of the queue is never written, and has no field here.
pub mod Order
pub mod Fit
pub mod Cover
pub mod Copy
mod Tests
use simplified_os_kernel.Prelude.{
  ℕ, Bool, true, false, ◌&&◌, ◌||◌, Option, none, some, List, [], ◌∷◌, ◌++◌, ltb, leb, ◌==◌,
  if◌then◌else◌,
}
use mathlib.Core.List.{reverse}
use simplified_os_kernel.Prelude.Words.{add32, user_lo, user_hi}

pub record Vme : Type 0 where
  pub start : ℕ
  pub end : ℕ
  pub size : ℕ

unfoldable pub new_vme : ℕ → ℕ → Vme
new_vme addr size = record { start = addr; end = add32 addr size; size = size }

abbrev pub VmeQueue : Type 0
VmeQueue = List Vme

-- The test of the closed upper end is the source's.
unfoldable pub intersects_queue : VmeQueue → ℕ → ℕ → Bool
intersects_queue [] addr size = false
intersects_queue (it ∷ rest) addr size =
    if ltb addr it.end && leb it.start (add32 addr size)
    then true
    else intersects_queue rest addr size

-- The first-fit walk: the start address that it stops at, the nodes passed and the nodes left.
unfoldable pub seek_gap : ℕ → ℕ → VmeQueue → ℕ × VmeQueue × VmeQueue
seek_gap size start_address [] = (start_address, [], [])
seek_gap size start_address (next ∷ rest) =
    let found = seek_gap size next.end rest in
    if ltb next.start (add32 start_address size)
    then (found.0, next ∷ found.1, found.2)
    else (start_address, [], next ∷ rest)

-- The walk to the place of a region whose address is given.
unfoldable pub seek_place : ℕ → VmeQueue → VmeQueue × VmeQueue
seek_place end [] = ([], [])
seek_place end (next ∷ rest) =
    let found = seek_place end rest in
    if ltb next.start end then (next ∷ found.0, found.1) else ([], next ∷ rest)

-- Links `vme` between the nodes passed and those left.
unfoldable pub link : VmeQueue → Vme → VmeQueue → ℕ × VmeQueue
link prev vme next = (vme.start, prev ++ (vme ∷ next))

unfoldable pub add_first_fit : VmeQueue → Vme → ℕ × VmeQueue
unfolding seek_gap link
add_first_fit q vme =
    let found = seek_gap vme.size user_lo q in
    let start_address = found.0 in
    if ltb user_hi (add32 start_address vme.size)
      || ltb (add32 start_address vme.size) start_address
    then (0, q)
    else link found.1
        (record { start = start_address; end = add32 start_address vme.size; size = vme.size })
        found.2

unfoldable pub add_at : VmeQueue → Vme → ℕ × VmeQueue
unfolding seek_place link
add_at q vme = let found = seek_place vme.end q in link found.0 vme found.1

-- The address of the new region, or 0, and the queue.
unfoldable pub add_vme : VmeQueue → Vme → ℕ × VmeQueue
unfolding add_first_fit add_at
add_vme q vme =
    if vme.size == 0 then (0, q) else if vme.start == 0 then add_first_fit q vme else add_at q vme

unfoldable pub remove : VmeQueue → ℕ → Option Vme × VmeQueue
remove [] addr = (none, [])
remove (it ∷ rest) addr =
    let found = remove rest addr in
    if ltb addr it.end && leb it.start addr then (some it, rest) else (found.0, it ∷ found.1)

-- Adds a copy of each region to the new queue, from the last to the first.
unfoldable pub copy_into : VmeQueue → VmeQueue → VmeQueue
unfolding add_vme new_vme
copy_into new_queue [] = new_queue
copy_into new_queue (it ∷ rest) = copy_into (add_vme new_queue (new_vme it.start it.size)).1 rest

unfoldable pub deep_copy : VmeQueue → VmeQueue
unfolding copy_into
deep_copy q = copy_into [] (reverse q)

unfoldable pub contains_range : VmeQueue → ℕ → ℕ → Bool
contains_range [] start end = false
contains_range (it ∷ rest) start end =
    let inside = leb it.start start && ltb start it.end in
    let further = contains_range rest (if inside then it.end else start) end in
    if inside && ltb end it.end then true else further

unfoldable pub is_empty : VmeQueue → Bool
is_empty [] = true
is_empty (it ∷ rest) = false
