-- ===== src/Ext2/Volume.antt =====
-- The class Ext2 of kernel/ext2.h and kernel/ext2.cc: mounting, and the search of an i-node. `none` is a failed
-- ASSERT, a division by zero or a shift by more than 31 places.
use simplified_os_kernel.Prelude.{
  ℕ, zero, suc, ◌+◌, ◌*◌, ◌-◌, ◌/◌, ◌%◌, ◌^◌, Option, some, List, [], ◌∷◌, get_elem?, ltb, leb,
  ◌>>=◌,
}
use simplified_os_kernel.Prelude.Words.{u32_mod, add32, sub32}
use simplified_os_kernel.BlockIo.{Device, read_thing, assert}
use simplified_os_kernel.Ext2.{
  SuperBlock, Ext2, Node, super_block_size, block_group_size, node_data_size, super_block,
  block_group, node_data,
}

-- The loop over the groups, from a place of the table on.
unfoldable pub tables : List ℕ → ℕ → ℕ → List ℕ
tables group_table i zero = []
tables group_table i (suc n) =
    (block_group group_table i).inode_table ∷ tables group_table (i + block_group_size) n

unfoldable pub get_block_size : Ext2 → ℕ
get_block_size fs = fs.block_size

unfoldable pub get_inode_size : Ext2 → ℕ
get_inode_size fs = fs.inode_size

unfoldable pub node_offset : Ext2 → ℕ → ℕ → ℕ
node_offset fs base index =
    add32 (base * fs.block_size % u32_mod) (index % fs.inodes_per_group * fs.inode_size % u32_mod)

-- The node in the table that starts at a block.
unfoldable pub node_at : Ext2 → ℕ → ℕ → Option Node
node_at fs number base = assert (leb base fs.number_of_blocks) (
    read_thing fs.ide (node_offset fs base (number - 1)) node_data_size >>= λ bytes.
    some (record {
      ide = fs.ide;
      number = number;
      block_size = fs.block_size;
      bits = node_data bytes;
    }))

unfoldable pub get_node : Ext2 → ℕ → Option Node
get_node fs number = assert (ltb 0 number) (
    assert (leb number fs.number_of_nodes) (
      assert (ltb 0 fs.inodes_per_group) (
        assert (ltb ((number - 1) / fs.inodes_per_group) fs.n_groups)
          (get_elem? fs.inode_tables ((number - 1) / fs.inodes_per_group) >>= node_at fs number))))

-- `uint32_t(1) << (sb.log_block_size + 10)`.
unfoldable pub block_size_of : SuperBlock → Option ℕ
block_size_of sb =
    assert (ltb (add32 sb.log_block_size 10) 32) (some (2 ^ add32 sb.log_block_size 10))

unfoldable pub group_count : SuperBlock → Option ℕ
group_count sb =
    let n = sub32 (add32 sb.blocks_count sb.blocks_per_group) 1 / sb.blocks_per_group in
    assert (ltb 0 sb.blocks_per_group)
      (assert (leb sb.blocks_count (n * sb.blocks_per_group % u32_mod)) (some n))

-- The group table stands in the block after the super block's.
unfoldable pub read_tables : Device → ℕ → ℕ → Option (List ℕ)
read_tables ide block_size n = do
  group_table ←
      read_thing ide (add32 (1024 / block_size) 1 * block_size % u32_mod)
        (block_group_size * n % u32_mod)
  some (tables group_table 0 n)

unfoldable pub mount_with : Device → SuperBlock → Option Ext2
mount_with ide sb = do
  block_size ← block_size_of sb
  n ← group_count sb
  inode_tables ← read_tables ide block_size n
  some (record {
    ide = ide;
    block_size = block_size;
    number_of_nodes = sb.inodes_count;
    number_of_blocks = sb.blocks_count;
    inode_size = sb.inode_size;
    n_groups = n;
    inode_tables = inode_tables;
    inodes_per_group = sb.inodes_per_group;
  })

-- The file system, and its root directory, which is node 2.
unfoldable pub mount : Device → Option (Ext2 × Node)
mount ide = do
  bytes ← read_thing ide 1024 super_block_size
  fs ← mount_with ide (super_block bytes)
  root ← get_node fs 2
  some (fs, root)
