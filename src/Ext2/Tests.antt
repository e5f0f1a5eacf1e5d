-- ===== src/Ext2/Tests.antt =====
-- A directory of two records, a small file, and a file system on a small disk.
use simplified_os_kernel.Prelude.{
  ℕ, zero, suc, ◌+◌, ◌*◌, ◌-◌, ◌/◌, ◌%◌, ◌≤◌, ◌<◌, ◌≡◌, refl, arith, Bool, true, Option, none, some,
  List, [], ◌∷◌, ◌++◌, ◌==◌, if◌then◌else◌, ◌⊎◌, All, get_elem?, some_inj, ◌>>=◌, length,
}
use simplified_os_kernel.BlockIo.{
  Device, read_all, read_loop, read_round, read, read_part, k_min, slice, u8, counted, read_thing,
}
use simplified_os_kernel.Ext2.{Ext2, Node, NodeData, super_block, block_group, node_data}
use simplified_os_kernel.Ext2.Volume.{
  mount, mount_with, block_size_of, group_count, read_tables, tables, get_node, node_at,
  node_offset,
}
use simplified_os_kernel.Ext2.Nodes.{
  read_block, find, entries, entries_loop, read_entry, last_match, streq, is_dir,
}
use simplified_os_kernel.Ext2.Mount.{IsMounted, node_from, get_node_lem}
use simplified_os_kernel.Ext2.Directory.{Record, IsRecord, layout}
use simplified_os_kernel.Ext2.Names.{HasNone, until_nul, find_lem}

-- Two records of one name.
abbrev first : Record
first = record { inode = 12; file_type = 1; name = b'a' ∷ b'b' ∷ []; pad = 0 ∷ 0 ∷ [] }

abbrev second : Record
second = record { inode = 700; file_type = 1; name = b'a' ∷ b'b' ∷ []; pad = [] }

abbrev directory : Device
directory = record {
  block_size = 16;
  size_in_bytes = 22;
  reads = λ b. true;
  read_block = λ b i. u8 (layout (first ∷ second ∷ [])) (b * 16 + i);
}

last_one : find true directory (b'a' ∷ b'b' ∷ []) ≡ some 700
unfolding find entries entries_loop read_entry last_match streq read_thing counted read_all
    read_loop read_round read read_part k_min slice
last_one = refl

prefix_of_one : find true directory (b'a' ∷ []) ≡ some 0
unfolding find entries entries_loop read_entry last_match streq read_thing counted read_all
    read_loop read_round read read_part k_min slice
prefix_of_one = refl

two-IsRecord : All IsRecord (first ∷ second ∷ [])
two-IsRecord = (fine first (omega arith) (omega arith) (omega arith), rest)
  where
    fine :
        (r : Record)
        → r.inode < 0x1_0000_0000
        → 8 + length r.name + length r.pad < 65536
        → length r.name < 256
        → IsRecord r
    fine r a b c = record { word = a; half = b; byte = c }

    rest : All IsRecord (second ∷ [])
    rest = (fine second (omega arith) (omega arith) (omega arith), tt)

find_lem_example :
    (HasNone (b'c' ∷ []) (first ∷ second ∷ []) × (find true directory (b'c' ∷ []) ≡ some 0))
    ⊎ ((before : List Record) × (r : Record) × (after : List Record) × (first ∷ second ∷ []
          ≡ before ++ (r ∷ after))
        × (until_nul (b'c' ∷ []) ≡ until_nul r.name)
        × HasNone (b'c' ∷ []) after
        × (find true directory (b'c' ∷ []) ≡ some r.inode))
unfolding slice
find_lem_example =
    find_lem directory (first ∷ second ∷ []) (b'c' ∷ [])
      (record { some_block = omega arith; all_read = λ b h. refl }) (omega arith) refl two-IsRecord

-- A disk of eight blocks of 1024 bytes.
abbrev disk : Device
disk = record {
  block_size = 512;
  size_in_bytes = 8192;
  reads = λ b. true;
  read_block = λ b i. (b + i) % 256;
}

-- A file of ten bytes, in block 3.
abbrev bits : NodeData
bits = record {
  mode = 0x8000;
  uid = 0;
  size_low = 10;
  atime = 0;
  ctime = 0;
  mtime = 0;
  dtime = 0;
  gid = 0;
  n_links = 1;
  n_sectors = 2;
  flags = 0;
  os1 = 0;
  direct = 3 ∷ 0 ∷ 0 ∷ 0 ∷ 0 ∷ 0 ∷ 0 ∷ 0 ∷ 0 ∷ 0 ∷ 0 ∷ 0 ∷ [];
  indirect_1 = 0;
  indirect_2 = 0;
  indirect_3 = 0;
  gen = 0;
  reserved1 = 0;
  reserved2 = 0;
  fragment = 0;
  os2 = [];
}

abbrev file : Node
file = record { ide = disk; number = 12; block_size = 1024; bits = bits }

-- One group of 16 nodes, in a table from block 5 on.
abbrev small_fs : Ext2
small_fs = record {
  ide = disk;
  block_size = 1024;
  number_of_nodes = 16;
  number_of_blocks = 8;
  inode_size = 128;
  n_groups = 1;
  inode_tables = 5 ∷ [];
  inodes_per_group = 16;
}

small_fs-IsMounted : IsMounted small_fs
small_fs-IsMounted = record {
  disk_blocks = record { some_block = omega arith; all_read = λ b h. refl };
  disk_small = omega arith;
  one_each = refl;
  some_nodes = omega arith;
  room = omega arith;
  whole_nodes = omega arith;
  in_range = range;
  on_disk = fits;
}
  where
    range : (g base : ℕ) → get_elem? (5 ∷ []) g ≡ some base → base ≤ 8
    range zero base e = omega (arith, some_inj 5 base e)
    range (suc g) base e = absurd (cc e)

    fits : (g base : ℕ) → get_elem? (5 ∷ []) g ≡ some base → base * 1024 + 16 * 128 ≤ 8192
    fits zero base e = omega (arith, some_inj 5 base e)
    fits (suc g) base e = absurd (cc e)

abbrev third : ℕ
third = 3

get_node_lem_example :
    ((0 < third)
      × (third ≤ 16)
      × (base : ℕ) × (get_elem? (5 ∷ []) ((third - 1) / 16) ≡ some base)
      × (get_node small_fs third
          ≡ some (node_from small_fs third (base * 1024 + (third - 1) % 16 * 128))))
    ⊎ (((third ≡ 0) ⊎ (16 < third)) × (get_node small_fs third ≡ none))
get_node_lem_example = get_node_lem small_fs third small_fs-IsMounted

-- The bytes of a disk that are not 0: a super block, a group and the root.
abbrev image : ℕ → ℕ
image x =
    if x == 1024
    then 16
    else if x == 1028
    then 8
    else if x == 1057
    then 32
    else if x == 1064
    then 16
    else if x == 1112
    then 128
    else if x == 2056
    then 5
    else if x == 5249
    then 0x40
    else 0

abbrev formatted : Device
formatted = record {
  block_size = 512;
  size_in_bytes = 8192;
  reads = λ b. true;
  read_block = λ b i. image (b * 512 + i);
}

summary : Ext2 × Node → Option (List ℕ × ℕ × Bool × ℕ)
summary (fs, root) = some (fs.inode_tables, fs.block_size, is_dir root.bits, root.number)

root_found : mount formatted >>= summary ≡ some (5 ∷ [], 1024, true, 2)
unfolding summary mount mount_with super_block block_size_of group_count read_tables tables
    block_group get_node node_at node_offset node_data read_thing counted read_all read_loop
    read_round read read_part k_min slice
root_found = refl
