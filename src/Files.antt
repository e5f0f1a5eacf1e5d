-- ===== src/Files.antt =====
-- The file calls of kernel/sys.cc: [1021] open, [1022] close, [1023] len, [1024] read and [1028] dup. A process has
-- an array of 10 pointers, from a base on. What a call puts into the memory of
-- the process is part of its outcome. `none` is a failed ASSERT, the use of a null pointer or of a deleted object.
pub mod Table
pub mod Reading
pub mod Writing
pub mod Pipe
pub mod Ends
pub mod Piping
mod Tests
mod ConsoleTests
use simplified_os_kernel.Prelude.{
  ℕ, ◌/◌, ◌^◌, zero, suc, ◌+◌, Bool, true, false, not, ◌||◌, Option, none, some, List, [], ◌∷◌,
  ◌++◌, length, get_elem?, set, ltb, leb, ◌==◌, if◌then◌else◌,
}
use simplified_os_kernel.Prelude.Words.{minus_one, add32, sub32, user_lo, user_hi}
use simplified_os_kernel.Shared.{Shared}
use simplified_os_kernel.Buffer
use simplified_os_kernel.Buffer.{Buffer, new_buffer, put}
use simplified_os_kernel.BlockIo.{Device, Read, error, got, read_all, slice}
use simplified_os_kernel.Handles.{
  Handles, is_null, pointer, is_bad, assign_new, assign_copy, clear, hold, seek, target,
  set_content,
}

-- kernel/ext2.h.
pub record Node : Type 0 where
  pub mode : ℕ
  pub device : Device

abbrev pub get_type : Node → ℕ
get_type node = node.mode / 2 ^ 12

abbrev pub is_dir : Node → Bool
is_dir node = get_type node == 4

abbrev pub is_file : Node → Bool
is_file node = get_type node == 8

-- The offset is not shared with another descriptor. A pipe is a place of the list of pipes.
pub record FileDescriptor : Type 0 where
  pub vnode : Option Node
  pub offset : ℕ
  pub readable : Bool
  pub writable : Bool
  pub pipe : Option ℕ

pub record Files : Type 0 where
  pub handles : Handles FileDescriptor
  pub pipes : List (Buffer ℕ)
  pub terminal : List ℕ

-- The value of a call, with what it puts into the buffer of `read`, or into the two words of `pipe`; or the
-- process has gone to the event loop.
pub data Outcome : Type 0 where
  returns : (v : ℕ) → Outcome
  fills : (bytes : List ℕ) (v : ℕ) → Outcome
  opens : (write_fd read_fd v : ℕ) → Outcome
  waits : Outcome

abbrev pub finish : Outcome → Files → Option (Handles FileDescriptor) → Option (Outcome × Files)
finish o st none = none
finish o st (some h) = some (o, record st { handles = h })

unfoldable pub opened : Node → FileDescriptor
opened node = record {
  vnode = some node;
  offset = 0;
  readable = true;
  writable = false;
  pipe = none;
}

unfoldable pub open_at : ℕ → Node → Files → Option ℕ → Option (Outcome × Files)
open_at base node st none = some (returns minus_one, st)
open_at base node st (some i) =
    finish (returns i) st (assign_new (opened node) st.handles (base + i))

-- `found` is what `find_path_node` gives.
unfoldable pub sys_open : ℕ → Option Node → Files → Option (Outcome × Files)
sys_open base none st = some (returns minus_one, st)
sys_open base (some node) st = open_at base node st (seek st.handles base 0 10)

unfoldable pub close : ℕ → ℕ → Files → Option (Outcome × Files)
close base fd st =
    if is_bad st.handles base 10 fd
    then some (returns minus_one, st)
    else finish (returns 0) st (clear st.handles (base + fd))

unfoldable pub dup_at : ℕ → ℕ → Files → Option ℕ → Option (Outcome × Files)
dup_at base fd st none = some (returns minus_one, st)
dup_at base fd st (some i) = finish (returns i) st (assign_copy st.handles (base + i) (base + fd))

unfoldable pub dup : ℕ → ℕ → Files → Option (Outcome × Files)
dup base fd st =
    if is_bad st.handles base 10 fd
    then some (returns minus_one, st)
    else dup_at base fd st (seek st.handles base 0 10)

-- `vnode != nullptr && vnode->is_dir()`, and the like for a file.
abbrev pub dir_node : Option Node → Bool
dir_node none = false
dir_node (some node) = is_dir node

abbrev pub any_node : Option Node → Bool
any_node none = false
any_node (some node) = is_dir node || is_file node

unfoldable pub len_node : Files → Option Node → Option (Outcome × Files)
len_node st none = none
len_node st (some node) =
    some (returns (if is_file node then node.device.size_in_bytes else minus_one), st)

unfoldable pub len_object : Files → Option (ℕ × FileDescriptor) → Option (Outcome × Files)
len_object st none = none
len_object st (some (p, d)) = elim (d.pipe) [
  | none ↦ len_node st d.vnode
  | some q ↦ some (returns minus_one, st)
]

unfoldable pub len : ℕ → ℕ → Files → Option (Outcome × Files)
len base fd st =
    if is_bad st.handles base 10 fd
    then some (returns minus_one, st)
    else len_object st (target st.handles (pointer st.handles (base + fd)))

-- The buffer is not in the user part of the address space.
unfoldable pub bad_range : ℕ → ℕ → Bool
bad_range buffer count =
    ltb buffer user_lo || (leb user_hi (add32 buffer count) || ltb (add32 buffer count) count)

-- The read of a file into the buffer, from the local pointer in the cell `l` to its end.
unfoldable pub read_done :
    Handles FileDescriptor → ℕ → ℕ → FileDescriptor → Files → Option Read → Option (Outcome × Files)
read_done h l p d st none = none
read_done h l p d st (some error) = finish (returns 0) st (clear (set_content h p d) l)
read_done h l p d st (some (got bytes)) =
    finish (fills bytes (length bytes)) st (clear (set_content h p d) l)

-- The bytes that a read of a file asks for.
unfoldable pub read_count : ℕ → FileDescriptor → Node → ℕ
read_count count d node =
    let left = sub32 node.device.size_in_bytes d.offset in if ltb left count then left else count

unfoldable pub read_file :
    ℕ
    → Handles FileDescriptor
    → ℕ
    → ℕ
    → FileDescriptor
    → Files
    → Option Node
    → Option (Outcome × Files)
read_file count h l p d st none = none
read_file count h l p d st (some node) =
    let n = read_count count d node in
    read_done h l p (record d { offset = add32 d.offset n }) st (read_all node.device d.offset n)

-- `pipe->get(…)`, by the process: the handler goes to `event_loop`, and its local pointer stays.
unfoldable pub get_pipe :
    ℕ → Handles FileDescriptor → ℕ → Files → Option (Buffer ℕ) → Option (Outcome × Files)
get_pipe pid h q st none = none
get_pipe pid h q st (some b) =
    some (waits, record st { handles = h; pipes = set st.pipes q (Buffer.get pid b) })

unfoldable pub read_object :
    ℕ
    → ℕ
    → Handles FileDescriptor
    → ℕ
    → Files
    → Option (ℕ × FileDescriptor)
    → Option (Outcome × Files)
read_object pid count h l st none = none
read_object pid count h l st (some (p, d)) =
    if not d.readable || dir_node d.vnode
    then finish (returns minus_one) st (clear h l)
    else elim (d.pipe) [
      | none ↦ read_file count h l p d st d.vnode
      | some q ↦ get_pipe pid h q st (get_elem? st.pipes q)
    ]

unfoldable pub read_local :
    ℕ → ℕ → ℕ → Files → Option (Handles FileDescriptor) → Option (Outcome × Files)
read_local pid count l st none = none
read_local pid count l st (some h) = read_object pid count h l st (target h (pointer h l))

unfoldable pub sys_read : ℕ → ℕ → ℕ → ℕ → ℕ → Files → Option (Outcome × Files)
sys_read pid base fd buffer count st =
    if count == 0
    then some (returns 0, st)
    else if is_bad st.handles base 10 fd || bad_range buffer count
    then some (returns minus_one, st)
    else read_local pid count (length st.handles.cells) st (hold st.handles (base + fd))
