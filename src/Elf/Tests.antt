-- ===== src/Elf/Tests.antt =====
-- An executable of one segment, in a file of 84 bytes.
use simplified_os_kernel.Prelude.{
  ℕ, zero, suc, ◌+◌, ◌*◌, ◌<◌, ◌≡◌, refl, arith, Bool, true, false, none, some, List, [], ◌∷◌, ◌++◌,
  All, ltb, ◌&&◌,
}
use mathlib.Core.List.{Memᴰ}
use simplified_os_kernel.BlockIo.{
  Device, read_all, read_loop, read_round, read, read_part, k_min, slice, u8, counted, read_thing,
}
use simplified_os_kernel.Vme.{Vme}
use simplified_os_kernel.Elf.{
  ProgramHeader, Image, elf_header, program_header, is_not_elf, bad_entry, bad_table, bad_segment,
  holds_entry, read_program_header, check_segment, check_segments, check_header, valid_load,
  read_program_headers, load,
}
use simplified_os_kernel.Elf.Segments.{HasBytes, header_of, EntryIn}
use simplified_os_kernel.Elf.Load.{IsMapped, load_lem}

abbrev word : ℕ → ℕ → ℕ → ℕ → List ℕ
word a b c d = a ∷ b ∷ c ∷ d ∷ []

-- The header, with the offset of the table; and the table, with the size of the segment.
abbrev contents : ℕ → List ℕ → List ℕ
contents phoff memsz =
    word 0x7f b'E' b'L' b'F'
    ++ word 1 1 1 0
    ++ word 0 0 0 0
    ++ word 0 0 0 0
    ++ word 2 0 3 0
    ++ word 1 0 0 0
    ++ word 0x10 0x10 0 0x80
    ++ word phoff 0 0 0
    ++ word 0 0 0 0
    ++ word 0 0 0 0
    ++ word 52 0 32 0
    ++ word 1 0 0 0
    ++ word 0 0 0 0
    ++ word 1 0 0 0
    ++ word 0 0 0 0
    ++ word 0 0x10 0 0x80
    ++ word 0 0 0 0
    ++ word 84 0 0 0
    ++ memsz
    ++ word 5 0 0 0
    ++ word 0 0x10 0 0

abbrev file_with : ℕ → List ℕ → Device
file_with phoff memsz = record {
  block_size = 64;
  size_in_bytes = 84;
  reads = λ b. true;
  read_block = λ b i. u8 (contents phoff memsz) (b * 64 + i);
}

abbrev program : Device
program = file_with 52 (word 0 0x20 0 0)

abbrev all_small : List ℕ → Bool
all_small [] = true
all_small (b ∷ bytes) = ltb b 256 && all_small bytes

u8-small : (bytes : List ℕ) (i : ℕ) → all_small bytes ≡ true → u8 bytes i < 256
u8-small [] i e = omega arith
u8-small (b ∷ bytes) zero e = ground arith
u8-small (b ∷ bytes) (suc i) e = u8-small bytes i (ground arith)

program-HasBytes : HasBytes program
program-HasBytes b i = u8-small (contents 52 (word 0 0x20 0 0)) (b * 64 + i) refl

program_valid : valid_load program ≡ some 1
unfolding valid_load check_header check_segments check_segment read_program_header elf_header
    program_header is_not_elf bad_entry bad_table bad_segment holds_entry read_thing counted
    read_all read_loop read_round read read_part k_min slice
program_valid = refl

-- A segment up to the end of the address space passes.
to_the_top :
    bad_segment (record {
      type = 1;
      offset = 0;
      vaddr = 0x8000_0000;
      paddr = 0;
      filesz = 0;
      memsz = 0x8000_0000;
      flags = 0;
      align = 0;
    })
    ≡ false
unfolding bad_segment
to_the_top = refl

-- A table that goes past the end of the file fails the assertion of the read.
table_outside : valid_load (file_with 60 (word 0 0x20 0 0)) ≡ none
unfolding valid_load check_header check_segments check_segment read_program_header elf_header
    program_header is_not_elf bad_entry bad_table bad_segment holds_entry read_thing counted
    read_all read_loop read_round read read_part k_min slice
table_outside = refl

load_lem_example :
    (ps : List ProgramHeader) × (image : Image) × (read_program_headers program
        (header_of program)
        0
        (header_of program).phnum
      ≡ some ps)
    × (load program [] ≡ some ((header_of program).entry, image))
    × EntryIn (header_of program) ps
    × ((v : Vme) → Memᴰ v [] → Memᴰ v image.queue)
    × All (IsMapped image.queue) ps
load_lem_example =
    load_lem program (record { some_block = omega arith; all_read = λ b h. refl }) program-HasBytes
      [] program_valid
