-- ===== src/Files/Writing.antt =====
-- write of kernel/sys.cc: [1] and [1025]. The memory of the process is a function from addresses to bytes.
use simplified_os_kernel.Prelude.{
  ℕ, ◌+◌, not, ◌||◌, ◌==◌, Option, none, some, ◌++◌, length, get_elem?, set, if◌then◌else◌,
}
use simplified_os_kernel.Prelude.Words.{minus_one}
use simplified_os_kernel.Buffer.{Buffer, put}
use simplified_os_kernel.BlockIo.{slice}
use simplified_os_kernel.Handles.{Handles, pointer, is_bad, clear, hold, target}
use simplified_os_kernel.Files.{
  FileDescriptor, Files, Outcome, returns, waits, finish, bad_range, any_node,
}

unfoldable pub put_pipe :
    ℕ → Handles FileDescriptor → ℕ → ℕ → Files → Option (Buffer ℕ) → Option (Outcome × Files)
put_pipe pid h q v st none = none
put_pipe pid h q v st (some b) =
    some (waits, record st { handles = h; pipes = set st.pipes q (put v pid b) })

unfoldable pub print : (ℕ → ℕ) → ℕ → ℕ → Files → Files
print m buffer count st = record st { terminal = st.terminal ++ slice m buffer count }

unfoldable pub write_object :
    ℕ
    → (ℕ → ℕ)
    → ℕ
    → ℕ
    → Handles FileDescriptor
    → ℕ
    → Files
    → Option (ℕ × FileDescriptor)
    → Option (Outcome × Files)
write_object pid m buffer count h l st none = none
write_object pid m buffer count h l st (some (p, d)) =
    if not d.writable || any_node d.vnode
    then finish (returns minus_one) st (clear h l)
    else elim (d.pipe) [
      | none ↦ finish (returns count) (print m buffer count st) (clear h l)
      | some q ↦ put_pipe pid h q (m buffer) st (get_elem? st.pipes q)
    ]

unfoldable pub write_local :
    ℕ → (ℕ → ℕ) → ℕ → ℕ → ℕ → Files → Option (Handles FileDescriptor) → Option (Outcome × Files)
write_local pid m buffer count l st none = none
write_local pid m buffer count l st (some h) =
    write_object pid m buffer count h l st (target h (pointer h l))

unfoldable pub sys_write : ℕ → (ℕ → ℕ) → ℕ → ℕ → ℕ → ℕ → Files → Option (Outcome × Files)
sys_write pid m base fd buffer count st =
    if count == 0
    then some (returns 0, st)
    else if is_bad st.handles base 10 fd || bad_range buffer count
    then some (returns minus_one, st)
    else write_local pid m buffer count (length st.handles.cells) st (hold st.handles (base + fd))
