-- ===== src/Ext2/Nodes.antt =====
-- The second half of kernel/ext2.cc, and the loop over a directory in kernel/ext2.h: the blocks of a node, and the
-- names of a directory. K::streq is of kernel/libk.cc. A string is its bytes before the NUL that ends it.
use simplified_os_kernel.Prelude.{
  ℕ, zero, suc, ◌+◌, ◌*◌, ◌-◌, ◌/◌, ◌%◌, ◌^◌, Bool, true, false, not, Option, none, some, List, [],
  ◌∷◌, length, get_elem?, ltb, ◌==◌, if◌then◌else◌, ◌>>=◌,
}
use simplified_os_kernel.Prelude.Words.{u32_mod, add32}
use simplified_os_kernel.BlockIo.{Device, read_thing, assert, u8, u16, u32}
use simplified_os_kernel.Ext2.{Ext2, Node, NodeData}
use simplified_os_kernel.Ext2.Volume.{get_node}

abbrev pub get_type : NodeData → ℕ
get_type bits = bits.mode / 2 ^ 12

abbrev pub is_dir : NodeData → Bool
is_dir bits = get_type bits == 4

abbrev pub is_file : NodeData → Bool
is_file bits = get_type bits == 8

abbrev pub is_symlink : NodeData → Bool
is_symlink bits = get_type bits == 0xa

-- The number in the indirect block.
unfoldable pub indirect : Node → ℕ → Option ℕ
indirect node index = do
  bytes ←
      read_thing node.ide
        (add32 (node.bits.indirect_1 * node.block_size % u32_mod) ((index - 12) * 4)) 4
  some (u32 bytes 0)

-- The number of the block of the disk; an index past those of the indirect block is a panic.
unfoldable pub block_index : Node → ℕ → Option ℕ
block_index node index =
    if ltb index 12
    then get_elem? node.bits.direct index
    else if ltb index (12 + node.block_size / 4)
    then indirect node index
    else none

-- The bytes of a block of the node.
unfoldable pub read_block : Node → ℕ → Option (List ℕ)
read_block node index = assert (ltb index (node.bits.n_sectors / (node.block_size / 512))) (do
  i ← block_index node index
  read_thing node.ide (i * node.block_size % u32_mod) node.block_size)

abbrev pub is_read : Option (List ℕ) → Bool
is_read none = false
is_read (some bytes) = true

abbrev pub byte_of : Option (List ℕ) → ℕ → ℕ
byte_of none i = 0
byte_of (some bytes) i = u8 bytes i

-- The node as a thing that is read in blocks.
abbrev pub device : Node → Device
device node = record {
  block_size = node.block_size;
  size_in_bytes = node.bits.size_low;
  reads = λ b. is_read (read_block node b);
  read_block = λ b i. byte_of (read_block node b) i;
}

unfoldable pub streq : List ℕ → List ℕ → Bool
streq [] [] = true
streq [] (y ∷ b) = y == 0
streq (x ∷ a) [] = x == 0
streq (x ∷ a) (y ∷ b) =
    let further = streq a b in if not (x == y) then false else if x == 0 then true else further

-- An entry of a directory: the node, the size of the entry and the name.
pub record Entry : Type 0 where
  pub inode : ℕ
  pub total_size : ℕ
  pub name : List ℕ

unfoldable pub read_entry : Device → ℕ → Option Entry
read_entry d offset = do
  inode ← read_thing d offset 4
  total_size ← read_thing d (add32 offset 4) 2
  name_length ← read_thing d (add32 offset 6) 1
  name ← read_thing d (add32 offset 8) (u8 name_length 0)
  some (record { inode = u32 inode 0; total_size = u16 total_size 0; name = name })

-- What `work` is called with, in order. The loop needs a round for each entry, and one more.
unfoldable pub entries_loop : ℕ → Device → ℕ → Option (List Entry)
entries_loop zero d offset = none
entries_loop (suc fuel) d offset =
    let round = (do
      e ← read_entry d offset
      rest ← entries_loop fuel d (add32 offset e.total_size)
      some (e ∷ rest)) in
    if ltb offset d.size_in_bytes then round else some []

unfoldable pub entries : Bool → Device → Option (List Entry)
entries dir d = assert dir (entries_loop (suc d.size_in_bytes) d 0)

-- `out` is the last match so far.
unfoldable pub last_match : List ℕ → ℕ → List Entry → ℕ
last_match name out [] = out
last_match name out (e ∷ es) = last_match name (if streq name e.name then e.inode else out) es

-- 0 is no node.
unfoldable pub find : Bool → Device → List ℕ → Option ℕ
find dir d name = entries dir d >>= λ es. some (last_match name 0 es)

unfoldable pub entry_count : Bool → Device → Option ℕ
entry_count dir d = assert dir (entries dir d >>= λ es. some (length es))

-- The node linked to a name; a null node is the inner `none`.
unfoldable pub find_node : Ext2 → Node → List ℕ → Option (Option Node)
find_node fs dir name = do
  number ← find (is_dir dir.bits) (device dir) name
  if number == 0 then some none else get_node fs number >>= λ node. some (some node)
