-- ===== src/Ext2.antt =====
-- The structures of kernel/ext2.h, and how they stand on a disk.
pub mod Volume
pub mod Nodes
pub mod Mount
pub mod Blocks
pub mod Names
pub mod Directory
mod Tests
use simplified_os_kernel.Prelude.{
  ℕ, zero, suc, ◌+◌, ◌*◌, ◌-◌, ◌/◌, ◌%◌, ◌^◌, Bool, true, false, Option, none, some, List, [], ◌∷◌,
  length, get_elem?, ltb, leb, ◌==◌, if◌then◌else◌, ◌>>=◌,
}
use simplified_os_kernel.Prelude.Words.{u32_mod, add32, sub32}
use simplified_os_kernel.BlockIo.{Device, read_thing, assert, u8, u16, u32}

-- The fields of `n` words, or of `n` bytes, from a place on.
abbrev pub words : List ℕ → ℕ → ℕ → List ℕ
words b i zero = []
words b i (suc n) = u32 b i ∷ words b (i + 4) n

abbrev pub chars : List ℕ → ℕ → ℕ → List ℕ
chars b i zero = []
chars b i (suc n) = u8 b i ∷ chars b (i + 1) n

pub record SuperBlock : Type 0 where
  pub inodes_count : ℕ
  pub blocks_count : ℕ
  pub reserved_blocks_count : ℕ
  pub free_blocks_count : ℕ
  pub free_inodes_count : ℕ
  pub first_data_block : ℕ
  pub log_block_size : ℕ
  pub log_frag_size : ℕ
  pub blocks_per_group : ℕ
  pub frags_per_group : ℕ
  pub inodes_per_group : ℕ
  pub mtime : ℕ
  pub wtime : ℕ
  pub mnt_count : ℕ
  pub max_mnt_count : ℕ
  pub magic : ℕ
  pub state : ℕ
  pub errors : ℕ
  pub minor_rev_level : ℕ
  pub lastcheck : ℕ
  pub checkinterval : ℕ
  pub creator_os : ℕ
  pub rev_level : ℕ
  pub def_resuid : ℕ
  pub def_resgid : ℕ
  pub first_inode : ℕ
  pub inode_size : ℕ
  pub block_group_nr : ℕ
  pub feature_compat : ℕ
  pub feature_incompat : ℕ
  pub feature_ro_compat : ℕ
  pub uuid : List ℕ
  pub volume_name : List ℕ
  pub algo_bitmap : ℕ

pub record BlockGroup : Type 0 where
  pub block_bitmap : ℕ
  pub inode_bitmap : ℕ
  pub inode_table : ℕ
  pub free_blocks_count : ℕ
  pub free_inodes_count : ℕ
  pub used_dirs_count : ℕ
  pub pad : ℕ
  pub reserved : List ℕ

-- `direct0` to `direct11` are the array as which read_block takes them.
pub record NodeData : Type 0 where
  pub mode : ℕ
  pub uid : ℕ
  pub size_low : ℕ
  pub atime : ℕ
  pub ctime : ℕ
  pub mtime : ℕ
  pub dtime : ℕ
  pub gid : ℕ
  pub n_links : ℕ
  pub n_sectors : ℕ
  pub flags : ℕ
  pub os1 : ℕ
  pub direct : List ℕ
  pub indirect_1 : ℕ
  pub indirect_2 : ℕ
  pub indirect_3 : ℕ
  pub gen : ℕ
  pub reserved1 : ℕ
  pub reserved2 : ℕ
  pub fragment : ℕ
  pub os2 : List ℕ

-- `sizeof` of the three.
abbrev pub super_block_size : ℕ
super_block_size = 140

abbrev pub block_group_size : ℕ
block_group_size = 32

abbrev pub node_data_size : ℕ
node_data_size = 128

unfoldable pub super_block : List ℕ → SuperBlock
super_block b = record {
  inodes_count = u32 b 0;
  blocks_count = u32 b 4;
  reserved_blocks_count = u32 b 8;
  free_blocks_count = u32 b 12;
  free_inodes_count = u32 b 16;
  first_data_block = u32 b 20;
  log_block_size = u32 b 24;
  log_frag_size = u32 b 28;
  blocks_per_group = u32 b 32;
  frags_per_group = u32 b 36;
  inodes_per_group = u32 b 40;
  mtime = u32 b 44;
  wtime = u32 b 48;
  mnt_count = u16 b 52;
  max_mnt_count = u16 b 54;
  magic = u16 b 56;
  state = u16 b 58;
  errors = u16 b 60;
  minor_rev_level = u16 b 62;
  lastcheck = u32 b 64;
  checkinterval = u32 b 68;
  creator_os = u32 b 72;
  rev_level = u32 b 76;
  def_resuid = u16 b 80;
  def_resgid = u16 b 82;
  first_inode = u32 b 84;
  inode_size = u16 b 88;
  block_group_nr = u16 b 90;
  feature_compat = u32 b 92;
  feature_incompat = u32 b 96;
  feature_ro_compat = u32 b 100;
  uuid = chars b 104 16;
  volume_name = chars b 120 16;
  algo_bitmap = u32 b 136;
}

-- The group at a place of the table.
unfoldable pub block_group : List ℕ → ℕ → BlockGroup
block_group b i = record {
  block_bitmap = u32 b i;
  inode_bitmap = u32 b (i + 4);
  inode_table = u32 b (i + 8);
  free_blocks_count = u16 b (i + 12);
  free_inodes_count = u16 b (i + 14);
  used_dirs_count = u16 b (i + 16);
  pad = u16 b (i + 18);
  reserved = chars b (i + 20) 12;
}

unfoldable pub node_data : List ℕ → NodeData
node_data b = record {
  mode = u16 b 0;
  uid = u16 b 2;
  size_low = u32 b 4;
  atime = u32 b 8;
  ctime = u32 b 12;
  mtime = u32 b 16;
  dtime = u32 b 20;
  gid = u16 b 24;
  n_links = u16 b 26;
  n_sectors = u32 b 28;
  flags = u32 b 32;
  os1 = u32 b 36;
  direct = words b 40 12;
  indirect_1 = u32 b 88;
  indirect_2 = u32 b 92;
  indirect_3 = u32 b 96;
  gen = u32 b 100;
  reserved1 = u32 b 104;
  reserved2 = u32 b 108;
  fragment = u32 b 112;
  os2 = chars b 116 12;
}

pub record Ext2 : Type 0 where
  pub ide : Device
  pub block_size : ℕ
  pub number_of_nodes : ℕ
  pub number_of_blocks : ℕ
  pub inode_size : ℕ
  pub n_groups : ℕ
  pub inode_tables : List ℕ
  pub inodes_per_group : ℕ

-- `bits` is the field data. The node keeps the disk, and the block size of its file system.
pub record Node : Type 0 where
  pub ide : Device
  pub number : ℕ
  pub block_size : ℕ
  pub bits : NodeData
