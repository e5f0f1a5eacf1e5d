-- ===== src/Mmap.antt =====
-- kernel/sys.cc [1005] simple_mmap, over the region queue of the process and its open files.
-- What simple_mmap writes into the new region is part of its outcome. `none` is a failed ASSERT, or an access
-- outside an array or to a deleted object.
pub mod Fits
pub mod Fill
mod Tests
use simplified_os_kernel.Prelude.{
  ℕ, ◌+◌, Bool, true, false, not, ◌||◌, ◌&&◌, ◌≡◌, Option, none, some, List, [], ◌∷◌, length, ltb,
  leb, ◌==◌, ◌^◌, if◌then◌else◌,
}
use Prim.Native.Nat.{bit_and}
use simplified_os_kernel.Prelude.Words.{minus_one, add32, sub32, user_lo, user_hi}
use simplified_os_kernel.Vme.{VmeQueue, new_vme, intersects_queue, add_vme}
use simplified_os_kernel.BlockIo.{Read, error, got, read_all}
use simplified_os_kernel.Handles.{pointer, is_bad, target}
use simplified_os_kernel.Files.{Node, FileDescriptor, Files, is_dir}

-- `filled va bytes z e`: `va` is returned, the bytes were read to `va`, and the bytes of `[z, e)` were cleared.
pub data Mapping : Type 0 where
  returns : (v : ℕ) → Mapping
  filled : (va : ℕ) (bytes : List ℕ) (z e : ℕ) → Mapping

abbrev pub unaligned : ℕ → Bool
unaligned a = not (bit_and a 0xFFF == 0)

unfoldable pub bad_request : VmeQueue → ℕ → ℕ → Bool
bad_request q addr size =
    (size == 0)
    || (unaligned addr
        || (unaligned size
            || ((not (addr == 0)
                  && (ltb addr user_lo
                      || (leb user_hi (add32 addr size) || ltb (add32 addr size) addr)))
                || (not (addr == 0) && intersects_queue q addr size))))

-- The node that is mapped; the inner `none` is a return of 0.
unfoldable pub node_of : Option (ℕ × FileDescriptor) → Option (Option Node)
node_of none = none
node_of (some (p, d)) = elim (d.vnode) [
  | none ↦ some none
  | some node ↦ some (if is_dir node then none else some node)
]

-- `fd` is an int32_t, so that a negative one is below 10, and an index outside the array.
unfoldable pub file_of : Files → ℕ → ℕ → ℕ → Option (Option Node)
file_of st base fd offset =
    if unaligned offset
    then some none
    else if leb (2 ^ 31) fd
    then none
    else if is_bad st.handles base 10 fd
    then some none
    else node_of (target st.handles (pointer st.handles (base + fd)))

unfoldable pub fill : ℕ → ℕ × VmeQueue → Option Read → Option (Mapping × VmeQueue)
fill size r none = none
fill size r (some error) = some (filled r.0 [] (sub32 r.0 1) (add32 r.0 size), r.1)
fill size r (some (got bytes)) =
    some (filled r.0 bytes (add32 r.0 (length bytes)) (add32 r.0 size), r.1)

unfoldable pub read_size : ℕ → ℕ → Node → ℕ
read_size size offset node =
    let left = sub32 node.device.size_in_bytes offset in if ltb size left then size else left

unfoldable pub map_file : ℕ → ℕ → ℕ → VmeQueue → Option (Option Node) → Option (Mapping × VmeQueue)
map_file addr size offset q none = none
map_file addr size offset q (some none) = some (returns 0, q)
map_file addr size offset q (some (some node)) =
    fill size (add_vme q (new_vme addr size))
      (read_all node.device offset (read_size size offset node))

unfoldable pub simple_mmap : ℕ → ℕ → ℕ → ℕ → ℕ → VmeQueue → Files → Option (Mapping × VmeQueue)
simple_mmap base addr size fd offset q st =
    if bad_request q addr size
    then some (returns 0, q)
    else if fd == minus_one
    then some (returns (add_vme q (new_vme addr size)).0, (add_vme q (new_vme addr size)).1)
    else map_file addr size offset q (file_of st base fd offset)
