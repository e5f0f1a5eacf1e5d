-- ===== src/PhysMem.antt =====
-- kernel/physmem.h and kernel/physmem.cc: the frame allocator. Freed frames form a list through their
-- own first words; frames that were never handed out lie from `avail` up to `limit`. `none` is a
-- panic or a failed ASSERT. `lock` makes each call one step.
pub mod Free
pub mod Alloc
mod Tests
use simplified_os_kernel.Prelude.{
  ℕ, ◌+◌, ◌-◌, ◌*◌, ◌/◌, Bool, true, false, Option, none, some, ◌==◌, if◌then◌else◌,
}
use simplified_os_kernel.Prelude.Words.{add32, sub32}
use simplified_os_kernel.Machine.{Memory, write, bzero}
use Prim.Native.Nat.{bit_and}

abbrev pub frame_size : ℕ
frame_size = 4096

unfoldable pub offset : ℕ → ℕ
offset pa = bit_and pa 0xFFF

unfoldable pub ppn : ℕ → ℕ
ppn pa = pa / 4096

unfoldable pub framedown : ℕ → ℕ
framedown pa = pa / frame_size * frame_size

unfoldable pub frameup : ℕ → ℕ
unfolding framedown
frameup pa = framedown (sub32 (add32 pa frame_size) 1)

pub record PhysMem : Type 0 where
  pub memory : Memory
  pub first_free : ℕ
  pub avail : ℕ
  pub limit : ℕ

unfoldable pub init : Memory → ℕ → ℕ → Option PhysMem
unfolding offset
init m start size =
    if offset start == 0
    then (if offset size == 0
        then some (record { memory = m; first_free = 0; avail = start; limit = add32 start size })
        else none)
    else none

-- The end of `alloc_frame`: the frame is checked and cleared.
unfoldable pub hand_out : PhysMem → ℕ → Option (ℕ × PhysMem)
unfolding offset
hand_out s p =
    if offset p == 0 then some (p, record s { memory = bzero s.memory p frame_size }) else none

unfoldable pub alloc_frame : PhysMem → Option (ℕ × PhysMem)
unfolding hand_out
alloc_frame s =
    if s.first_free == 0
    then (if s.avail == s.limit
        then none
        else hand_out (record s { avail = add32 s.avail frame_size }) s.avail)
    else hand_out (record s { first_free = s.memory s.first_free }) s.first_free

unfoldable pub dealloc_frame : PhysMem → ℕ → Option PhysMem
unfolding offset
dealloc_frame s p =
    if offset p == 0
    then some (record s { memory = write s.memory p s.first_free; first_free = p })
    else none
