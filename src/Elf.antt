-- ===== src/Elf.antt =====
-- kernel/elf.h and kernel/elf.cc: what makes a file loadable, and how it is loaded. A file is the device of
-- its node. `none` is a failed ASSERT of a read.
pub mod Segments
pub mod Valid
pub mod Load
mod Tests
use simplified_os_kernel.Prelude.{
  ℕ, zero, suc, ◌+◌, ◌*◌, ◌-◌, ◌/◌, ◌%◌, ◌^◌, Bool, true, false, not, ◌&&◌, ◌||◌, Option, none,
  some, List, [], ◌∷◌, ◌++◌, ltb, leb, ◌==◌, if◌then◌else◌, ◌>>=◌,
}
use simplified_os_kernel.Prelude.Words.{u32_mod, minus_one, add32, sub32}
use simplified_os_kernel.BlockIo.{Device, Read, read_all, read_thing, u8, u16, u32}
use simplified_os_kernel.Vme.{VmeQueue, new_vme, add_vme}

pub record ElfHeader : Type 0 where
  pub magic0 : ℕ
  pub magic1 : ℕ
  pub magic2 : ℕ
  pub magic3 : ℕ
  pub cls : ℕ
  pub encoding : ℕ
  pub header_version : ℕ
  pub abi : ℕ
  pub abi_version : ℕ
  pub type : ℕ
  pub machine : ℕ
  pub version : ℕ
  pub entry : ℕ
  pub phoff : ℕ
  pub shoff : ℕ
  pub flags : ℕ
  pub ehsize : ℕ
  pub phentsize : ℕ
  pub phnum : ℕ
  pub shentsize : ℕ
  pub shnum : ℕ
  pub shstrndx : ℕ

pub record ProgramHeader : Type 0 where
  pub type : ℕ
  pub offset : ℕ
  pub vaddr : ℕ
  pub paddr : ℕ
  pub filesz : ℕ
  pub memsz : ℕ
  pub flags : ℕ
  pub align : ℕ

-- `sizeof` of the two, which are packed.
abbrev pub header_size : ℕ
header_size = 52

abbrev pub program_header_size : ℕ
program_header_size = 32

unfoldable pub elf_header : List ℕ → ElfHeader
elf_header b = record {
  magic0 = u8 b 0;
  magic1 = u8 b 1;
  magic2 = u8 b 2;
  magic3 = u8 b 3;
  cls = u8 b 4;
  encoding = u8 b 5;
  header_version = u8 b 6;
  abi = u8 b 7;
  abi_version = u8 b 8;
  type = u16 b 16;
  machine = u16 b 18;
  version = u32 b 20;
  entry = u32 b 24;
  phoff = u32 b 28;
  shoff = u32 b 32;
  flags = u32 b 36;
  ehsize = u16 b 40;
  phentsize = u16 b 42;
  phnum = u16 b 44;
  shentsize = u16 b 46;
  shnum = u16 b 48;
  shstrndx = u16 b 50;
}

unfoldable pub program_header : List ℕ → ProgramHeader
program_header b = record {
  type = u32 b 0;
  offset = u32 b 4;
  vaddr = u32 b 8;
  paddr = u32 b 12;
  filesz = u32 b 16;
  memsz = u32 b 20;
  flags = u32 b 24;
  align = u32 b 28;
}

-- The first test of valid_load.
unfoldable pub is_not_elf : ElfHeader → Bool
is_not_elf h =
    not (h.magic0 == 0x7f)
    || not (h.magic1 == b'E')
    || not (h.magic2 == b'L')
    || not (h.magic3 == b'F')
    || not (h.cls == 1)
    || not (h.machine == 3)
    || not (h.version == 1)

unfoldable pub bad_entry : ElfHeader → Bool
bad_entry h = ltb h.entry 0x8000_0000 || leb 0xF000_1000 h.entry

-- The product of two 16-bit numbers is less than 2^32.
unfoldable pub bad_table : ElfHeader → ℕ → Bool
bad_table h file_size = ltb file_size h.phoff || ltb file_size (h.phnum * h.phentsize)

unfoldable pub bad_segment : ProgramHeader → Bool
bad_segment p =
    ltb p.vaddr 0x8000_0000
    || leb 0xF000_1000 (add32 p.vaddr p.memsz)
    || ltb (sub32 (add32 p.vaddr p.memsz) 1) (sub32 p.vaddr 1)

unfoldable pub holds_entry : ElfHeader → ProgramHeader → Bool
holds_entry h p = leb p.vaddr h.entry && ltb h.entry (add32 p.vaddr p.memsz)

-- `file->read(header.phoff + header.phentsize * i, p_headers[i])`.
unfoldable pub read_program_header : Device → ElfHeader → ℕ → Option ProgramHeader
read_program_header file h i = do
  bytes ← read_thing file (add32 h.phoff (h.phentsize * i % u32_mod)) program_header_size
  some (program_header bytes)

-- What a round of the loop of valid_load does, with the rest of the loop as a function of valid_entry: -1 at
-- a bad segment.
unfoldable pub check_segment : ElfHeader → Bool → (Bool → Option ℕ) → ProgramHeader → Option ℕ
check_segment h valid_entry next p =
    if not (p.type == 1)
    then next valid_entry
    else if bad_segment p
    then some minus_one
    else next (holds_entry h p || valid_entry)

-- The loop of valid_load from round `i` on, with `n` rounds left, and the test of valid_entry after it.
unfoldable pub check_segments : Device → ElfHeader → ℕ → ℕ → Bool → Option ℕ
check_segments file h i zero valid_entry = some (if valid_entry then 1 else minus_one)
check_segments file h i (suc n) valid_entry = do
  p ← read_program_header file h i
  check_segment h valid_entry (check_segments file h (i + 1) n) p

unfoldable pub check_header : Device → ElfHeader → Option ℕ
check_header file h =
    if is_not_elf h || bad_entry h || bad_table h file.size_in_bytes
    then some minus_one
    else check_segments file h 0 h.phnum false

-- 1, or -1 for a file that is not loadable.
unfoldable pub valid_load : Device → Option ℕ
valid_load file =
    if ltb file.size_in_bytes header_size
    then some minus_one
    else read_thing file 0 header_size >>= λ bytes. check_header file (elf_header bytes)

-- The first loop of load.
unfoldable pub read_program_headers : Device → ElfHeader → ℕ → ℕ → Option (List ProgramHeader)
read_program_headers file h i zero = some []
read_program_headers file h i (suc n) = do
  p ← read_program_header file h i
  rest ← read_program_headers file h (i + 1) n
  some (p ∷ rest)

unfoldable pub aligned_vaddr : ProgramHeader → ℕ
aligned_vaddr p = p.vaddr / 2 ^ 12 * 2 ^ 12

unfoldable pub aligned_vaddr_end : ProgramHeader → ℕ
aligned_vaddr_end p = (sub32 (add32 p.vaddr p.memsz) 1 / 2 ^ 12 + 1) * 2 ^ 12 % u32_mod

unfoldable pub aligned_memsz : ProgramHeader → ℕ
aligned_memsz p = sub32 (aligned_vaddr_end p) (aligned_vaddr p)

-- The regions of the process, and the bytes put into its memory, with their addresses.
pub record Image : Type 0 where
  pub queue : VmeQueue
  pub written : List (ℕ × Read)

unfoldable pub load_segment : Device → Image → ProgramHeader → Option Image
load_segment file image p =
    let queue = (add_vme image.queue (new_vme (aligned_vaddr p) (aligned_memsz p))).1 in
    if not (p.type == 1)
    then some image
    else read_all file p.offset p.filesz >>= λ bytes.
        some (record { queue = queue; written = image.written ++ ((p.vaddr, bytes) ∷ []) })

-- The second loop of load.
unfoldable pub load_segments : Device → Image → List ProgramHeader → Option Image
load_segments file image [] = some image
load_segments file image (p ∷ ps) = do
  image' ← load_segment file image p
  load_segments file image' ps

-- The entry point, and what is loaded.
unfoldable pub load : Device → VmeQueue → Option (ℕ × Image)
load file queue = do
  bytes ← read_thing file 0 header_size
  ps ← read_program_headers file (elf_header bytes) 0 (elf_header bytes).phnum
  image ← load_segments file (record { queue = queue; written = [] }) ps
  some ((elf_header bytes).entry, image)
