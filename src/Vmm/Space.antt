-- ===== src/Vmm/Space.antt =====
-- An address space whose tables are frames of its own, and the hardware's walk through it.
use simplified_os_kernel.Prelude.{
  ℕ, ◌+◌, ◌*◌, ◌/◌, ◌%◌, ◌^◌, ◌≤◌, ◌<◌, ◌≡◌, ◌≢◌, ap, true, Option, none, some, List, arith,
  if◌then◌else◌, eq→==,
}
use simplified_os_kernel.Prelude.Words.{u32_mod}
use simplified_os_kernel.Prelude.Bits.{bit_and-one, bit_and-page, bit_and-3ff, bit_or-page}
use Prim.Native.Nat.{bit_or}
use simplified_os_kernel.PhysMem.{PhysMem}
use simplified_os_kernel.PhysMem.Free.{is_out}
use simplified_os_kernel.Vmm.{entry, present, page_of, directory_index, table_index}

-- What the processor makes of an address under the directory, with paging on: the two-level walk.
abbrev pub translate : PhysMem → ℕ → ℕ → Option ℕ
translate s directory va =
    if present (entry s directory (directory_index va))
    then (let table = page_of (entry s directory (directory_index va)) in
        if present (entry s table (table_index va))
        then some (page_of (entry s table (table_index va)) + va % 4096)
        else none)
    else none

-- The directory and its tables are frames that are out, no two of them the same.
pub record IsSpace (base : ℕ) (s : PhysMem) (fs : List ℕ) (directory : ℕ) : Type 0 where
  pub directory_out : is_out base s fs directory ≡ true
  pub tables_out :
      (i : ℕ)
      → i < 1024
      → present (entry s directory i) ≡ true
      → (is_out base s fs (page_of (entry s directory i)) ≡ true)
        × (page_of (entry s directory i) ≢ directory)
  pub tables_apart :
      (i j : ℕ)
      → i < 1024
      → j < 1024
      → i ≢ j
      → present (entry s directory i) ≡ true
      → present (entry s directory j) ≡ true
      → page_of (entry s directory i) ≢ page_of (entry s directory j)

pub directory_index-lt : (va : ℕ) → va < u32_mod → directory_index va < 1024
unfolding directory_index
directory_index-lt va h = omega arith

pub table_index-lt : (va : ℕ) → table_index va < 1024
unfolding table_index
table_index-lt va = omega (arith, bit_and-3ff (va / 2 ^ 12))

-- The entry that the kernel makes of a new frame is present and leads to the frame.
pub present-flags :
    (p flags : ℕ) → p % 4096 ≡ 0 → flags < 4096 → flags % 2 ≡ 1 → present (bit_or p flags) ≡ true
unfolding present
present-flags p flags a f o = eq→== _ 1 (
    omega (
      arith,
      bit_and-one (bit_or p flags),
      bit_or-page (p / 4096) flags f,
      ap (λ k. bit_or k flags) {x = p} {y = p / 4096 * 4096} (omega arith),
    ))

pub page_of-flags :
    (p flags : ℕ) → p % 4096 ≡ 0 → flags < 4096 → p + 4096 ≤ u32_mod → page_of (bit_or p flags) ≡ p
unfolding page_of
page_of-flags p flags a f w = omega (arith, bit_and-page (bit_or p flags) below, sum)
  where
    sum : bit_or p flags ≡ p + flags
    sum = omega (
      arith,
      bit_or-page (p / 4096) flags f,
      ap (λ k. bit_or k flags) {x = p} {y = p / 4096 * 4096} (omega arith),
    )

    below : bit_or p flags < u32_mod
    below = omega (arith, sum)

-- Two pages of the address space are told apart by the two indices.
pub page_indices :
    (va vb : ℕ)
    → directory_index va ≡ directory_index vb
    → table_index va ≡ table_index vb
    → va / 4096 ≡ vb / 4096
unfolding directory_index table_index
page_indices va vb h k = omega (arith, bit_and-3ff (va / 2 ^ 12), bit_and-3ff (vb / 2 ^ 12))
