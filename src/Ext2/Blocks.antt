-- ===== src/Ext2/Blocks.antt =====
-- What a node gives when it is read as a device: the blocks of the disk that its tables name.
use simplified_os_kernel.Prelude.{
  ℕ, ◌+◌, ◌*◌, ◌-◌, ◌/◌, ◌%◌, ◌^◌, ◌≤◌, ◌<◌, ◌≡◌, refl, ap, arith, Option, none, some, length,
  get_elem?_lt, ltb, lt→ltb, ltb→lt, ltb→le, Bool-cases, inl, inr,
}
use native.Mathlib.Nat.{lt_of_mul-lt-mul_right}
use simplified_os_kernel.Prelude.Words.{u32_mod, add32}
use simplified_os_kernel.BlockIo.{IsReadable, slice, u32}
use simplified_os_kernel.BlockIo.Slice.{content}
use simplified_os_kernel.BlockIo.Things.{read_thing_lem}
use simplified_os_kernel.Ext2.{Node}
use simplified_os_kernel.Ext2.Nodes.{indirect, block_index, read_block, is_read, device}

-- The block of the disk behind a block of the node.
abbrev pub number_or_zero : Option ℕ → ℕ
number_or_zero none = 0
number_or_zero (some i) = i

-- The tables of the node reach to its end, and what they name lies on the disk.
pub record IsSound (node : Node) : Type 0 where
  pub disk_blocks : IsReadable node.ide
  pub disk_small : node.ide.size_in_bytes < 2 ^ 32
  pub some_size : 0 < node.block_size
  pub sectors : node.bits.size_low ≤ node.bits.n_sectors / (node.block_size / 512) * node.block_size
  pub reach : node.bits.size_low ≤ (12 + node.block_size / 4) * node.block_size
  pub twelve : length node.bits.direct ≡ 12
  pub indirect_there :
      12 * node.block_size < node.bits.size_low
      → (node.bits.indirect_1 + 1) * node.block_size ≤ node.ide.size_in_bytes
  pub blocks_there :
      (index i : ℕ)
      → index * node.block_size < node.bits.size_low
      → block_index node index ≡ some i
      → (i + 1) * node.block_size ≤ node.ide.size_in_bytes

-- The byte of the disk behind a byte of the node.
abbrev pub file_byte : Node → ℕ → ℕ
file_byte node x = content node.ide (
    number_or_zero (block_index node (x / node.block_size)) * node.block_size + x % node.block_size)

module _ (node : Node) (sound : IsSound node) where
  indirect_lem :
      (index : ℕ)
      → 12 ≤ index
      → index < 12 + node.block_size / 4
      → index * node.block_size < node.bits.size_low
      → (i : ℕ) × (indirect node index ≡ some i)
  unfolding indirect
  indirect_lem index from to inside = (
    u32 (slice (content node.ide) offset 4) 0,
    rw (read_thing_lem node.ide offset 4 sound.disk_blocks fits) refl,
  )
    where
      offset : ℕ
      offset = add32 (node.bits.indirect_1 * node.block_size % u32_mod) ((index - 12) * 4)

      twelve_blocks : 12 * node.block_size ≤ index * node.block_size
      twelve_blocks = grind arith

      there : (node.bits.indirect_1 + 1) * node.block_size ≤ node.ide.size_in_bytes
      there = sound.indirect_there (omega (arith, twelve_blocks, inside))

      next :
          (node.bits.indirect_1 + 1) * node.block_size
          ≡ node.bits.indirect_1 * node.block_size + node.block_size
      next = omega arith

      fits : offset + 4 ≤ node.ide.size_in_bytes
      fits = omega (arith, there, next, sound.disk_small, to, from)

  block_index_lem :
      (index : ℕ)
      → index * node.block_size < node.bits.size_low
      → (i : ℕ) × (block_index node index ≡ some i)
  unfolding block_index
  block_index_lem index inside = elim (Bool-cases (ltb index 12)) [
    | inl low ↦
        let (i, e) =
          get_elem?_lt node.bits.direct index (omega (arith, ltb→lt index 12 low, sound.twelve)) in
        (i, rw (low) e)
    | inr high ↦
        let (i, e) = indirect_lem index (ltb→le index 12 high) in_table inside in
        (i, rw (high, lt→ltb index (12 + node.block_size / 4) in_table) e)
  ]
    where
      in_table : index < 12 + node.block_size / 4
      in_table = lt_of_mul-lt-mul_right node.block_size (omega (arith, inside, sound.reach))

  -- Each block of the node is a block of the disk, and is read.
  pub read_block_lem :
      (index : ℕ)
      → index * node.block_size < node.bits.size_low
      → read_block node index
        ≡ some (
            slice
              (content node.ide)
              (number_or_zero (block_index node index) * node.block_size)
              node.block_size)
  unfolding read_block
  read_block_lem index inside =
      let (i, e) = block_index_lem index inside in
      rw (lt→ltb index _ in_sectors, e, start i (there i e))
        (read_thing_lem node.ide (i * node.block_size) node.block_size sound.disk_blocks
          (omega (arith, next i, there i e)))
    where
      in_sectors : index < node.bits.n_sectors / (node.block_size / 512)
      in_sectors = lt_of_mul-lt-mul_right node.block_size (omega (arith, inside, sound.sectors))

      there :
          (i : ℕ)
          → block_index node index ≡ some i
          → (i + 1) * node.block_size ≤ node.ide.size_in_bytes
      there i e = sound.blocks_there index i inside e

      next : (i : ℕ) → (i + 1) * node.block_size ≡ i * node.block_size + node.block_size
      next i = omega arith

      start :
          (i : ℕ)
          → (i + 1) * node.block_size ≤ node.ide.size_in_bytes
          → i * node.block_size % u32_mod ≡ i * node.block_size
      start i h = omega (arith, next i, h, sound.disk_small, sound.some_size)

-- The blocks of the node can be read.
pub device-IsReadable : (node : Node) → IsSound node → IsReadable (device node)
device-IsReadable node sound = record {
  some_block = sound.some_size;
  all_read = λ index inside. ap is_read (read_block_lem node sound index inside);
}
