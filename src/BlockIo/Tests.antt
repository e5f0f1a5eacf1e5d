-- ===== src/BlockIo/Tests.antt =====
-- Reads of a small device: blocks of four bytes, ten bytes in all.
use simplified_os_kernel.Prelude.{true, ◌+◌, ◌*◌, ◌-◌, ◌≡◌, refl, arith, [], ◌∷◌, some, min}
use simplified_os_kernel.BlockIo.{
  Device, error, got, read_all, read_loop, read_round, read, read_part, k_min, size_in_blocks,
  slice,
}
use simplified_os_kernel.BlockIo.Slice.{content}
use simplified_os_kernel.BlockIo.ReadAll.{read_all_lem, read_all_past}

abbrev small_disk : Device
small_disk = record {
  block_size = 4;
  size_in_bytes = 10;
  reads = λ b. true;
  read_block = λ b i. 10 * b + i;
}

three_blocks : size_in_blocks small_disk ≡ 3
unfolding size_in_blocks
three_blocks = refl

across_blocks : read_all small_disk 3 99 ≡ some (got (3 ∷ 10 ∷ 11 ∷ 12 ∷ 13 ∷ 20 ∷ 21 ∷ []))
unfolding read_all read_loop read_round read read_part k_min slice
across_blocks = refl

read_all_lem_example :
    read_all small_disk 3 99 ≡ some (got (slice (content small_disk) 3 (min 99 (10 - 3))))
read_all_lem_example =
    read_all_lem small_disk 3 99 (record { some_block = omega arith; all_read = λ b h. refl })
      (omega arith)

read_all_past_example : read_all small_disk 11 1 ≡ some error
read_all_past_example = read_all_past small_disk 11 1 (omega arith) (omega arith)
