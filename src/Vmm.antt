-- ===== src/Vmm.antt =====
-- The page tables of kernel/vmm.cc, as words of physical memory. A directory or a table is a frame of
-- 1024 entries; an entry holds a page address and flags, the lowest of them the present bit.
pub mod Space
pub mod Fault
pub mod Map
pub mod Page
mod Tests
use simplified_os_kernel.Prelude.{
  ℕ, zero, suc, ◌+◌, ◌*◌, ◌/◌, ◌^◌, Bool, true, false, Option, none, some, ◌==◌, if◌then◌else◌,
}
use simplified_os_kernel.Machine.{Memory, write}
use simplified_os_kernel.PhysMem.{PhysMem, alloc_frame, dealloc_frame}
use Prim.Native.Nat.{bit_and, bit_or}

infixl 5 ◌>>=◌
abbrev pub ◌>>=◌ : {A B : Type 0} → Option A → (A → Option B) → Option B
none >>= f = none
some a >>= f = f a

-- `table[i]` of a `uint32_t* table`.
abbrev pub entry : PhysMem → ℕ → ℕ → ℕ
entry s table i = s.memory (table + 4 * i)

abbrev pub set_entry : PhysMem → ℕ → ℕ → ℕ → PhysMem
set_entry s table i v = record s { memory = write s.memory (table + 4 * i) v }

-- `(e & 1) == 1`.
unfoldable pub present : ℕ → Bool
present e = bit_and e 1 == 1

-- `e & 0xFFFFF000`.
unfoldable pub page_of : ℕ → ℕ
page_of e = bit_and e 0xFFFFF000

-- `va >> 22` and `(va >> 12) & 0x3FF`.
unfoldable pub directory_index : ℕ → ℕ
directory_index va = va / 2 ^ 22

unfoldable pub table_index : ℕ → ℕ
table_index va = bit_and (va / 2 ^ 12) 0x3FF

-- One level of the walk in `vmm_pageFault`: an entry that is not present gets a new frame.
unfoldable pub fill_entry : PhysMem → ℕ → ℕ → ℕ → Option PhysMem
unfolding present
fill_entry s table i flags =
    if present (entry s table i)
    then some s
    else do (frame, s') ← alloc_frame s; some (set_entry s' table i (bit_or frame flags))

-- The part of `vmm_pageFault` that backs an address of a region with a frame.
unfoldable pub map_page : PhysMem → ℕ → ℕ → Option PhysMem
unfolding fill_entry page_of directory_index table_index
map_page s page_directory va = do
  s' ← fill_entry s page_directory (directory_index va) 0x7
  fill_entry s' (page_of (entry s' page_directory (directory_index va))) (table_index va) 0x107
