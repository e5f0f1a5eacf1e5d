-- ===== src/Ext2/Mount.antt =====
-- The i-nodes of a mounted file system, and what mounting finds.
use simplified_os_kernel.Prelude.{
  ℕ, ◌+◌, ◌*◌, ◌-◌, ◌/◌, ◌%◌, ◌^◌, ◌≤◌, ◌<◌, ◌≡◌, refl, arith, none, some, length, get_elem?,
  get_elem?_lt, ltb, leb, lt→ltb, ltb→lt, ltb→le, leb→le, leb→lt, le→leb, Bool-cases, ◌⊎◌, inl, inr,
}
use native.Mathlib.Nat.{mod-lt, div-lt_iff_lt-mul, mul-le-mul}
use simplified_os_kernel.BlockIo.{IsReadable, slice}
use simplified_os_kernel.BlockIo.Slice.{content}
use simplified_os_kernel.BlockIo.Things.{read_thing_lem}
use simplified_os_kernel.Ext2.{Ext2, Node, node_data, node_data_size}
use simplified_os_kernel.Ext2.Volume.{node_offset, node_at, get_node}

-- The tables of i-nodes lie on the disk, one for each group, and have room for all nodes.
pub record IsMounted (fs : Ext2) : Type 0 where
  pub disk_blocks : IsReadable fs.ide
  pub disk_small : fs.ide.size_in_bytes < 2 ^ 32
  pub one_each : length fs.inode_tables ≡ fs.n_groups
  pub some_nodes : 0 < fs.inodes_per_group
  pub room : fs.number_of_nodes ≤ fs.n_groups * fs.inodes_per_group
  pub whole_nodes : node_data_size ≤ fs.inode_size
  pub in_range : (g base : ℕ) → get_elem? fs.inode_tables g ≡ some base → base ≤ fs.number_of_blocks
  pub on_disk :
      (g base : ℕ)
      → get_elem? fs.inode_tables g ≡ some base
      → base * fs.block_size + fs.inodes_per_group * fs.inode_size ≤ fs.ide.size_in_bytes

-- The node at a place of the disk.
abbrev pub node_from : Ext2 → ℕ → ℕ → Node
node_from fs number offset = record {
  ide = fs.ide;
  number = number;
  block_size = fs.block_size;
  bits = node_data (slice (content fs.ide) offset node_data_size);
}

module _ (fs : Ext2) (mounted : IsMounted fs) where
  -- Where the node stands, in a table that lies on the disk.
  in_table :
      (index base : ℕ)
      → base * fs.block_size + fs.inodes_per_group * fs.inode_size ≤ fs.ide.size_in_bytes
      → (node_offset fs base index
          ≡ base * fs.block_size + index % fs.inodes_per_group * fs.inode_size)
        × (base * fs.block_size + index % fs.inodes_per_group * fs.inode_size + node_data_size
            ≤ fs.ide.size_in_bytes)
  unfolding node_offset
  in_table index base fits = (
    omega (arith, fits, below, next, mounted.disk_small, mounted.whole_nodes),
    omega (arith, fits, below, next, mounted.whole_nodes),
  )
    where
      below :
          (index % fs.inodes_per_group + 1) * fs.inode_size ≤ fs.inodes_per_group * fs.inode_size
      below = mul-le-mul (omega (arith, mod-lt index mounted.some_nodes)) (omega arith)

      next :
          (index % fs.inodes_per_group + 1) * fs.inode_size
          ≡ index % fs.inodes_per_group * fs.inode_size + fs.inode_size
      next = omega arith

  node_at_lem :
      (number base : ℕ)
      → base ≤ fs.number_of_blocks
      → base * fs.block_size + fs.inodes_per_group * fs.inode_size ≤ fs.ide.size_in_bytes
      → node_at fs number base
        ≡ some (
            node_from fs number
              (base * fs.block_size + (number - 1) % fs.inodes_per_group * fs.inode_size))
  unfolding node_at
  node_at_lem number base range fits =
      let (place, inside) = in_table (number - 1) base fits in
      rw
        (
          le→leb base fs.number_of_blocks range,
          place,
          read_thing_lem fs.ide _ node_data_size mounted.disk_blocks inside,
        )
        refl

-- In a mounted file system, on a disk whose blocks can be read, whose tables of i-nodes lie on the disk, one for each group, with room
-- for all nodes: get_node gives, for a number from 1 to the count of nodes, the node with the bytes
-- that stand at its place in the table of its group; for any other number an assertion fails.
pub get_node_lem :
    (fs : Ext2) (number : ℕ)
    → IsMounted fs
    → ((0 < number)
        × (number ≤ fs.number_of_nodes)
        × (base : ℕ) × (get_elem? fs.inode_tables ((number - 1) / fs.inodes_per_group) ≡ some base)
        × (get_node fs number
            ≡ some (
                node_from fs number
                  (base * fs.block_size + (number - 1) % fs.inodes_per_group * fs.inode_size))))
      ⊎ (((number ≡ 0) ⊎ (fs.number_of_nodes < number)) × (get_node fs number ≡ none))
unfolding get_node
get_node_lem fs number mounted = elim (Bool-cases (ltb 0 number)) [
  | inr zero_number ↦ inr (inl (omega (arith, ltb→le 0 number zero_number)), rw (zero_number) refl)
  | inl positive ↦ elim (Bool-cases (leb number fs.number_of_nodes)) [
    | inr past ↦ inr (inr (leb→lt number fs.number_of_nodes past), rw (positive, past) refl)
    | inl within ↦
        let some_number = ltb→lt 0 number positive in
        let known = leb→le number fs.number_of_nodes within in
        let group = in_group some_number known in
        let (base, e) =
          get_elem?_lt fs.inode_tables ((number - 1) / fs.inodes_per_group)
            (omega (arith, group, mounted.one_each)) in
        inl (
          some_number,
          known,
          base,
          e,
          rw
              (
                positive,
                within,
                lt→ltb 0 fs.inodes_per_group mounted.some_nodes,
                lt→ltb _ fs.n_groups group,
                e,
              )
              (node_at_lem fs mounted number base (mounted.in_range _ base e)
                (mounted.on_disk _ base e)),
        )
  ]
]
  where
    in_group :
        0 < number → number ≤ fs.number_of_nodes → (number - 1) / fs.inodes_per_group < fs.n_groups
    in_group some_number known =
        (div-lt_iff_lt-mul mounted.some_nodes).1 (omega (arith, some_number, known, mounted.room))
