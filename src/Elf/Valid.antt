-- ===== src/Elf/Valid.antt =====
-- valid_load accepts exactly the loadable files.
use simplified_os_kernel.Prelude.{
  ℕ, zero, suc, ◌+◌, ◌*◌, ◌≤◌, ◌<◌, ◌≡◌, ◌≢◌, ◌↔◌, refl, sym, ap, ◌∙◌, subst, arith, Bool, true,
  false, ◌||◌, Option, none, some, List, [], ◌∷◌, All, Bool-cases, Option-cases, some_inj, ◌⊎◌, inl,
  inr, ltb, ltb→le, le→ltb,
}
use simplified_os_kernel.Prelude.Words.{minus_one, add32}
use simplified_os_kernel.BlockIo.{IsReadable, Device}
use simplified_os_kernel.BlockIo.Things.{read_thing_lem}
use simplified_os_kernel.Elf.{
  ElfHeader, ProgramHeader, header_size, is_not_elf, bad_entry, bad_table, holds_entry,
  check_segments, check_header, valid_load, read_program_headers,
}
use simplified_os_kernel.Elf.Segments.{
  IsElf, IsGood, EntryIn, header_of, IsLoadable, HasBytes, read_program_header_lem,
  check_segment_lem, segment_check, entry-holds_entry,
}

module _ (file : Device) (h : ElfHeader) (pos : IsReadable file) (bytes : HasBytes file) where
  -- A check that ends with 1 has read all the headers, and found them good.
  accepted :
      (n i : ℕ) (v : Bool)
      → check_segments file h i n v ≡ some 1
      → (ps : List ProgramHeader) × (read_program_headers file h i n ≡ some ps)
        × All IsGood ps
        × ((v ≡ true) ⊎ EntryIn h ps)
  unfolding check_segments read_program_headers
  accepted zero i true e = ([], refl, tt, inl refl)
  accepted zero i false e = absurd (omega (arith, some_inj minus_one 1 e))
  accepted (suc n) i v e = elim (read_program_header_lem file h i pos bytes) [
    | inl fails ↦ absurd (none_some (rw (fails) at e))
    | inr (p, here, w) ↦
        let (good, goes_on) =
          check_segment_lem h v (check_segments file h (i + 1) n) p w (rw (here) at e) in
        elim goes_on [
          | inl same ↦
              let (ps, all, goods, entry) = accepted n (i + 1) v same in
              (p ∷ ps, rw (here, all) refl, (good, goods), further p ps v entry)
          | inr (found, type, from, to) ↦
              let (ps, all, goods, entry) = accepted n (i + 1) true found in
              (p ∷ ps, rw (here, all) refl, (good, goods), inr (0, p, refl, type, from, to))
        ]
  ]
    where
      none_some : ◌≡◌ {A = Option ℕ} none (some 1) → ⊥
      none_some e = cc e

      further :
          (p : ProgramHeader) (ps : List ProgramHeader) (v : Bool)
          → (v ≡ true) ⊎ EntryIn h ps
          → (v ≡ true) ⊎ EntryIn h (p ∷ ps)
      further p ps v (inl e) = inl e
      further p ps v (inr (i, q, there, type, from, to)) = inr (suc i, q, there, type, from, to)

  -- The flag after a good segment, or the rest of the segments, has the entry point.
  flagged :
      (p : ProgramHeader) (ps : List ProgramHeader) (v : Bool)
      → (v ≡ true) ⊎ EntryIn h (p ∷ ps)
      → ((holds_entry h p || v) ≡ true) ⊎ EntryIn h ps
  flagged p ps v (inl e) = elim (Bool-cases (holds_entry h p)) [
    | inl here ↦ inl (rw (here) refl)
    | inr away ↦ inl (rw (away) e)
  ]
  flagged p ps v (inr (zero, q, same, type, from, to)) = inl (
      rw
        (entry-holds_entry h p (subst (λ q. q.vaddr ≤ h.entry) (sym (some_inj p q same)) from)
          (subst (λ q. h.entry < add32 q.vaddr q.memsz) (sym (some_inj p q same)) to))
        refl)
  flagged p ps v (inr (suc i, q, there, type, from, to)) = inr (i, q, there, type, from, to)

  unflagged :
      (p : ProgramHeader) (ps : List ProgramHeader) (v : Bool)
      → p.type ≢ 1
      → (v ≡ true) ⊎ EntryIn h (p ∷ ps)
      → (v ≡ true) ⊎ EntryIn h ps
  unflagged p ps v other (inl e) = inl e
  unflagged p ps v other (inr (zero, q, same, type, from, to)) =
      absurd (other (ap (λ (q : ProgramHeader). q.type) (some_inj p q same) ∙ type))
  unflagged p ps v other (inr (suc i, q, there, type, from, to)) = inr (i, q, there, type, from, to)

  accepts :
      (n i : ℕ) (v : Bool) (ps : List ProgramHeader)
      → read_program_headers file h i n ≡ some ps
      → All IsGood ps
      → (v ≡ true) ⊎ EntryIn h ps
      → check_segments file h i n v ≡ some 1
  unfolding check_segments read_program_headers
  accepts zero i v ps all goods (inl e) = rw (e) refl
  accepts zero i v [] all goods (inr (k, q, none_there, type, from, to)) = absurd (cc none_there)
  accepts zero i v (p ∷ ps) all goods (inr entry) = absurd (cc all)
  accepts (suc n) i v ps all goods entry = elim (read_program_header_lem file h i pos bytes) [
    | inl fails ↦ absurd (cc (rw (fails) at all))
    | inr (p, here, w) ↦ elim (Option-cases (read_program_headers file h (i + 1) n)) [
      | inl fails ↦ absurd (cc (rw (here, fails) at all))
      | inr (rest, others) ↦
          let parts : p ∷ rest ≡ ps = some_inj (p ∷ rest) ps (rw (here, others) at all) in
          let goods' : All IsGood (p ∷ rest) = subst (All IsGood) (sym parts) goods in
          let entry' : (v ≡ true) ⊎ EntryIn h (p ∷ rest) =
            subst (λ ps. (v ≡ true) ⊎ EntryIn h ps) (sym parts) entry in
          rw (here) (elim (segment_check h v (check_segments file h (i + 1) n) p w goods'.0) [
            | inl (other, e) ↦
                e ∙ accepts n (i + 1) v rest others goods'.1 (unflagged p rest v other entry')
            | inr (type, e) ↦ e ∙ accepts n (i + 1) _ rest others goods'.1 (flagged p rest v entry')
          ])
    ]
  ]

header_false :
    (h : ElfHeader) (size : ℕ)
    → (is_not_elf h || bad_entry h || bad_table h size) ≡ false
    → IsElf h
      × (0x8000_0000 ≤ h.entry)
      × (h.entry < 0xF000_1000)
      × (h.phoff ≤ size)
      × (h.phnum * h.phentsize ≤ size)
unfolding is_not_elf bad_entry bad_table
header_false h size e = (
  (
    ground arith,
    ground arith,
    ground arith,
    ground arith,
    ground arith,
    ground arith,
    ground arith,
  ),
  ground arith,
  ground arith,
  ground arith,
  ground arith,
)

false_header :
    (h : ElfHeader) (size : ℕ)
    → IsElf h
    → 0x8000_0000 ≤ h.entry
    → h.entry < 0xF000_1000
    → h.phoff ≤ size
    → h.phnum * h.phentsize ≤ size
    → (is_not_elf h || bad_entry h || bad_table h size) ≡ false
unfolding is_not_elf bad_entry bad_table
false_header h size (a, b, c, d, e, f, g) from to table_from table_size = ground arith

header-IsLoadable :
    (file : Device)
    → IsReadable file
    → HasBytes file
    → header_size ≤ file.size_in_bytes
    → check_header file (header_of file) ≡ some 1
    → (ps : List ProgramHeader) × IsLoadable file ps
unfolding check_header
header-IsLoadable file pos bytes has e =
    elim (Bool-cases (is_not_elf h || bad_entry h || bad_table h file.size_in_bytes)) [
      | inl bad ↦ absurd (omega (arith, some_inj minus_one 1 (rw (bad) at e)))
      | inr fine ↦
          let (elf, from, to, table_from, table_size) = header_false h file.size_in_bytes fine in
          let (ps, table, goods, entry) =
            accepted file h pos bytes h.phnum 0 false (rw (fine) at e) in
          (
            ps,
            record {
              has_header = has;
              is_elf = elf;
              entry_from = from;
              entry_to = to;
              table_from = table_from;
              table_size = table_size;
              table = table;
              placed = goods;
              entry_in = in_segment ps entry;
            },
          )
    ]
  where
    h : ElfHeader
    h = header_of file

    in_segment : (ps : List ProgramHeader) → (false ≡ true) ⊎ EntryIn h ps → EntryIn h ps
    in_segment ps (inl e) = absurd (cc e)
    in_segment ps (inr entry) = entry

pub valid_load-IsLoadable :
    (file : Device)
    → IsReadable file
    → HasBytes file
    → (valid_load file ≡ some 1) ↔ ((ps : List ProgramHeader) × IsLoadable file ps)
unfolding valid_load check_header
valid_load-IsLoadable file pos bytes = (to_loadable, to_one)
  where
    to_loadable : valid_load file ≡ some 1 → (ps : List ProgramHeader) × IsLoadable file ps
    to_loadable e = elim (Bool-cases (ltb file.size_in_bytes header_size)) [
      | inl short ↦ absurd (omega (arith, some_inj minus_one 1 (rw (short) at e)))
      | inr has ↦
          let fits = ltb→le file.size_in_bytes header_size has in
          header-IsLoadable file pos bytes fits
            (rw (has, read_thing_lem file 0 header_size pos fits) at e)
    ]

    to_one : (ps : List ProgramHeader) × IsLoadable file ps → valid_load file ≡ some 1
    to_one (ps, l) =
        rw
          (
            le→ltb file.size_in_bytes header_size l.has_header,
            read_thing_lem file 0 header_size pos l.has_header,
            false_header (header_of file) file.size_in_bytes l.is_elf l.entry_from l.entry_to
                l.table_from l.table_size,
          )
          (accepts file (header_of file) pos bytes (header_of file).phnum 0 false ps l.table
            l.placed (inr l.entry_in))
