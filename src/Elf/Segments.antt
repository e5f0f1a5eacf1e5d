-- ===== src/Elf/Segments.antt =====
-- What valid_load tests of a file, and of one segment of it.
use simplified_os_kernel.Prelude.{
  ℕ, zero, suc, ◌+◌, ◌*◌, ◌%◌, ◌^◌, ◌≤◌, ◌<◌, ◌≡◌, ◌≢◌, refl, arith, Bool, true, false, ◌||◌,
  Option, none, some, List, ◌==◌, All, get_elem?, Bool-cases, some_inj, ◌⊎◌, inl, inr, ltb, ==→eq,
  ==→ne, ltb→lt, ltb→le,
}
use simplified_os_kernel.Prelude.Words.{u32_mod, minus_one, add32}
use simplified_os_kernel.BlockIo.{IsReadable, Device, slice, u8, u32}
use simplified_os_kernel.BlockIo.Slice.{content}
use simplified_os_kernel.BlockIo.Things.{read_thing_lem, read_thing_outside}
use simplified_os_kernel.Elf.{
  ElfHeader, ProgramHeader, header_size, program_header_size, elf_header, program_header,
  bad_segment, holds_entry, read_program_header, check_segment, read_program_headers,
}

-- The file is an executable for this machine.
abbrev pub IsElf : ElfHeader → Type 0
IsElf h =
    (h.magic0 ≡ 0x7f)
    × (h.magic1 ≡ b'E')
    × (h.magic2 ≡ b'L')
    × (h.magic3 ≡ b'F')
    × (h.cls ≡ 1)
    × (h.machine ≡ 3)
    × (h.version ≡ 1)

-- The segment lies in the range for programs, or it ends at the end of the address space.
abbrev pub IsPlaced : ProgramHeader → Type 0
IsPlaced p =
    (0x8000_0000 ≤ p.vaddr) × ((p.vaddr + p.memsz < 0xF000_1000) ⊎ (p.vaddr + p.memsz ≡ 2 ^ 32))

abbrev pub IsGood : ProgramHeader → Type 0
IsGood p = p.type ≡ 1 → IsPlaced p

-- One of the segments to load has the entry point in it. The end is a uint32_t, as in the source: a segment that
-- ends at the end of the address space has no entry point in it.
abbrev pub EntryIn : ElfHeader → List ProgramHeader → Type 0
EntryIn h ps =
    (i : ℕ) × (p : ProgramHeader) × (get_elem? ps i ≡ some p)
    × (p.type ≡ 1)
    × (p.vaddr ≤ h.entry)
    × (h.entry < add32 p.vaddr p.memsz)

abbrev pub header_of : Device → ElfHeader
header_of file = elf_header (slice (content file) 0 header_size)

pub record IsLoadable (file : Device) (ps : List ProgramHeader) : Type 0 where
  pub has_header : header_size ≤ file.size_in_bytes
  pub is_elf : IsElf (header_of file)
  pub entry_from : 0x8000_0000 ≤ (header_of file).entry
  pub entry_to : (header_of file).entry < 0xF000_1000
  pub table_from : (header_of file).phoff ≤ file.size_in_bytes
  pub table_size : (header_of file).phnum * (header_of file).phentsize ≤ file.size_in_bytes
  pub table : read_program_headers file (header_of file) 0 (header_of file).phnum ≡ some ps
  pub placed : All IsGood ps
  pub entry_in : EntryIn (header_of file) ps

-- The bytes of the file are bytes.
abbrev pub HasBytes : Device → Type 0
HasBytes file = (b i : ℕ) → file.read_block b i < 256

u8-lt : (f : ℕ → ℕ) (from n i : ℕ) → ((k : ℕ) → f k < 256) → u8 (slice f from n) i < 256
unfolding slice
u8-lt f from zero i h = omega arith
u8-lt f from (suc n) zero h = h from
u8-lt f from (suc n) (suc i) h = u8-lt f (from + 1) n i h

pub u32-lt : (f : ℕ → ℕ) (from n i : ℕ) → ((k : ℕ) → f k < 256) → u32 (slice f from n) i < 2 ^ 32
u32-lt f from n i h = omega (
  arith,
  u8-lt f from n i h,
  u8-lt f from n (i + 1) h,
  u8-lt f from n (i + 2) h,
  u8-lt f from n (i + 2 + 1) h,
)

abbrev pub IsWord : ProgramHeader → Type 0
IsWord p = (p.vaddr < 2 ^ 32) × (p.memsz < 2 ^ 32)

-- The fields of a program header are 32 bits wide.
pub read_program_header_lem :
    (file : Device) (h : ElfHeader) (i : ℕ)
    → IsReadable file
    → HasBytes file
    → (read_program_header file h i ≡ none)
      ⊎ ((p : ProgramHeader) × (read_program_header file h i ≡ some p) × IsWord p)
unfolding read_program_header program_header
read_program_header_lem file h i pos bytes =
    elim (Bool-cases (ltb file.size_in_bytes (offset + program_header_size))) [
      | inl out ↦ inl (
          rw (read_thing_outside file offset program_header_size pos (omega arith) (ltb→lt _ _ out))
            refl)
      | inr inside ↦ inr (
        program_header (slice (content file) offset program_header_size),
        rw (read_thing_lem file offset program_header_size pos (ltb→le _ _ inside)) refl,
        (
          u32-lt (content file) offset program_header_size 8 (λ k. bytes _ _),
          u32-lt (content file) offset program_header_size 20 (λ k. bytes _ _),
        ),
      )
    ]
  where
    offset : ℕ
    offset = add32 h.phoff (h.phentsize * i % u32_mod)

pub bad_segment-false : (p : ProgramHeader) → IsWord p → bad_segment p ≡ false → IsPlaced p
unfolding bad_segment
bad_segment-false p w e = (
  ground (arith, w.0, w.1),
  elim (Bool-cases (ltb (p.vaddr + p.memsz) (2 ^ 32))) [
    | inl short ↦ inl (ground (arith, w.0, w.1))
    | inr long ↦ inr (ground (arith, w.0, w.1))
  ],
)

placed-bad_segment : (p : ProgramHeader) → IsWord p → IsPlaced p → bad_segment p ≡ false
unfolding bad_segment
placed-bad_segment p w (from, inl to) = ground (arith, w.0, w.1)
placed-bad_segment p w (from, inr to) = ground (arith, w.0, w.1)

holds_entry-true :
    (h : ElfHeader) (p : ProgramHeader)
    → holds_entry h p ≡ true
    → (p.vaddr ≤ h.entry) × (h.entry < add32 p.vaddr p.memsz)
unfolding holds_entry
holds_entry-true h p e = (ground arith, ground arith)

pub entry-holds_entry :
    (h : ElfHeader) (p : ProgramHeader)
    → p.vaddr ≤ h.entry
    → h.entry < add32 p.vaddr p.memsz
    → holds_entry h p ≡ true
unfolding holds_entry
entry-holds_entry h p from to = ground arith

-- A round that goes on to 1 has a good segment, and goes on with the right flag.
pub check_segment_lem :
    (h : ElfHeader) (v : Bool) (next : Bool → Option ℕ) (p : ProgramHeader)
    → IsWord p
    → check_segment h v next p ≡ some 1
    → IsGood p
      × (((next v ≡ some 1))
          ⊎ ((next true ≡ some 1)
              × (p.type ≡ 1)
              × (p.vaddr ≤ h.entry)
              × (h.entry < add32 p.vaddr p.memsz)))
unfolding check_segment
check_segment_lem h v next p w e = elim (Bool-cases (p.type == 1)) [
  | inr other ↦ ((λ t. absurd (==→ne p.type 1 other t)), inl (rw (other) at e))
  | inl to_load ↦ elim (Bool-cases (bad_segment p)) [
    | inl bad ↦ absurd (omega (arith, some_inj minus_one 1 (rw (to_load, bad) at e)))
    | inr good ↦ elim (Bool-cases (holds_entry h p)) [
      | inl here ↦
          let (from, to) = holds_entry-true h p here in
          (
            (λ t. bad_segment-false p w good),
            inr (rw (to_load, good, here) at e, ==→eq p.type 1 to_load, from, to),
          )
      | inr away ↦ ((λ t. bad_segment-false p w good), inl (rw (to_load, good, away) at e))
    ]
  ]
]

pub segment_check :
    (h : ElfHeader) (v : Bool) (next : Bool → Option ℕ) (p : ProgramHeader)
    → IsWord p
    → IsGood p
    → ((p.type ≢ 1) × (check_segment h v next p ≡ next v))
      ⊎ ((p.type ≡ 1) × (check_segment h v next p ≡ next (holds_entry h p || v)))
unfolding check_segment
segment_check h v next p w good = elim (Bool-cases (p.type == 1)) [
  | inr other ↦ inl (==→ne p.type 1 other, rw (other) refl)
  | inl to_load ↦ inr (
    ==→eq p.type 1 to_load,
    rw (to_load, placed-bad_segment p w (good (==→eq p.type 1 to_load))) refl,
  )
]
