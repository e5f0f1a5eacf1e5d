-- ===== src/Elf/Load.antt =====
-- load gives the regions that the segments of a loadable file need.
use simplified_os_kernel.Prelude.{
  ℕ, zero, suc, ◌+◌, ◌-◌, ◌*◌, ◌/◌, ◌%◌, ◌^◌, ◌≤◌, ◌<◌, ◌≡◌, refl, arith, some, List, [], ◌∷◌, ◌==◌,
  All, Bool-cases, ◌⊎◌, inl, inr, ==→eq, ==→ne, ne→==, Option-cases, some_inj, ◌≢◌, ◌++◌, sym,
  subst,
}
use mathlib.Core.List.{Memᴰ}
use mathlib.Core.List.Memᴰ
use simplified_os_kernel.BlockIo.{IsReadable, Device, Read}
use simplified_os_kernel.BlockIo.Things.{read_thing_lem, read_all_answers}
use simplified_os_kernel.Vme.{Vme, VmeQueue, new_vme, add_vme, add_at, link, seek_place}
use simplified_os_kernel.Vme.Fit.{seek_place-append}
use simplified_os_kernel.Elf.{
  ElfHeader, ProgramHeader, header_size, aligned_vaddr, aligned_vaddr_end, aligned_memsz, Image,
  load_segment, load_segments, load, valid_load, read_program_headers,
}
use simplified_os_kernel.Elf.Segments.{
  IsPlaced, IsGood, IsWord, EntryIn, header_of, HasBytes, read_program_header_lem,
}
use simplified_os_kernel.Elf.Valid.{valid_load-IsLoadable}

-- The pages of a segment: from the page of its start to that of the address behind its end, or to the
-- end of the address space.
pub record IsCovered (p : ProgramHeader) : Type 0 where
  pub page : aligned_vaddr p ≡ p.vaddr / 4096 * 4096
  pub end : aligned_vaddr p + aligned_memsz p ≡ ((p.vaddr + p.memsz - 1) / 4096 + 1) * 4096
  pub size : aligned_memsz p % 4096 ≡ 0
  pub from : 0x8000_0000 ≤ aligned_vaddr p
  pub start : aligned_vaddr p ≤ p.vaddr
  pub reach : p.vaddr + p.memsz ≤ aligned_vaddr p + aligned_memsz p
  pub to :
      (aligned_vaddr p + aligned_memsz p ≤ 0xF000_1000)
      ⊎ (aligned_vaddr p + aligned_memsz p ≡ 2 ^ 32)

covered : (p : ProgramHeader) → IsWord p → IsPlaced p → IsCovered p
unfolding aligned_vaddr aligned_vaddr_end aligned_memsz
covered p w (from, inl to) = record {
  page = omega arith;
  end = omega (arith, w.0, w.1, from, to);
  size = omega (arith, w.0, w.1, from, to);
  from = omega (arith, from);
  start = omega arith;
  reach = omega (arith, w.0, w.1, from, to);
  to = inl (omega (arith, w.0, w.1, from, to));
}
covered p w (from, inr to) = record {
  page = omega arith;
  end = omega (arith, w.0, w.1, from, to);
  size = omega (arith, w.0, w.1, from, to);
  from = omega (arith, from);
  start = omega arith;
  reach = omega (arith, w.0, w.1, from, to);
  to = inr (omega (arith, w.0, w.1, from, to));
}

-- A region stays in the queue when another is added.
kept : (q : VmeQueue) (w : Vme) (v : Vme) → 0 < w.start → Memᴰ v q → Memᴰ v (add_vme q w).1
unfolding add_vme add_at link
kept q w v some_start m = elim (Bool-cases (w.size == 0)) [
  | inl empty ↦ rw (empty) m
  | inr full ↦
      rw (full, ne→== w.start 0 (omega arith))
        (elim (Memᴰ.append_cases (seek_place w.end q).0
          (subst (Memᴰ v) (sym (seek_place-append w.end q)) m)) [
            | inl before ↦ Memᴰ.append_left (w ∷ (seek_place w.end q).1) before
            | inr after ↦ Memᴰ.append_right (seek_place w.end q).0 (Memᴰ.tail after)
          ])
]

-- A region that is not empty is in the queue when it is added.
placed : (q : VmeQueue) (w : Vme) → 0 < w.start → 0 < w.size → Memᴰ w (add_vme q w).1
unfolding add_vme add_at link
placed q w some_start some_size =
    rw (ne→== w.size 0 (omega arith), ne→== w.start 0 (omega arith))
      (Memᴰ.append_right (seek_place w.end q).0 (Memᴰ.head refl))

abbrev pub region_of : ProgramHeader → Vme
region_of p = new_vme (aligned_vaddr p) (aligned_memsz p)

-- A segment to load has its pages in the queue.
abbrev pub IsMapped : VmeQueue → ProgramHeader → Type 0
IsMapped q p = p.type ≡ 1 → IsCovered p × (0 < aligned_memsz p → Memᴰ (region_of p) q)

module _ (file : Device) (pos : IsReadable file) where
  -- A segment that is not loaded changes nothing; one that is adds its pages.
  load_segment_lem :
      (image : Image) (p : ProgramHeader)
      → ((p.type ≢ 1) × (load_segment file image p ≡ some image))
        ⊎ ((p.type ≡ 1)
            × (written : List (ℕ × Read)) × (load_segment file image p
                ≡ some
                    (record { queue = (add_vme image.queue (region_of p)).1; written = written })))
  unfolding load_segment
  load_segment_lem image p = elim (Bool-cases (p.type == 1)) [
    | inr other ↦ inl (==→ne p.type 1 other, rw (other) refl)
    | inl to_load ↦
        let (bytes, e) = read_all_answers file p.offset p.filesz pos in
        inr (==→eq p.type 1 to_load, image.written ++ ((p.vaddr, bytes) ∷ []), rw (to_load, e) refl)
  ]

  -- All segments are loaded; the regions that were there stay.
  load_segments_lem :
      (ps : List ProgramHeader) (image : Image)
      → All (λ p. p.type ≡ 1 → IsCovered p) ps
      → (image' : Image) × (load_segments file image ps ≡ some image')
        × ((v : Vme) → Memᴰ v image.queue → Memᴰ v image'.queue)
        × All (IsMapped image'.queue) ps
  unfolding load_segments new_vme
  load_segments_lem [] image covers = (image, refl, (λ v m. m), tt)
  load_segments_lem (p ∷ ps) image covers = elim (load_segment_lem image p) [
    | inl (other, e) ↦
        let (last, e', stays, mapped) = load_segments_lem ps image covers.1 in
        (last, rw (e) e', stays, ((λ t. absurd (other t)), mapped))
    | inr (type, written, e) ↦
        let cover : IsCovered p = covers.0 type in
        let here : Image = record {
          queue = (add_vme image.queue (region_of p)).1;
          written = written;
        } in
        let (last, e', stays, mapped) = load_segments_lem ps here covers.1 in
        (
          last,
          rw (e) e',
          (λ v m. stays v (kept image.queue (region_of p) v (starts p cover) m)),
          (
            (λ t. (
              cover,
              λ some_size.
                  stays (region_of p)
                    (placed image.queue (region_of p) (starts p cover) (sized p some_size)),
            )),
            mapped,
          ),
        )
  ]
    where
      starts : (p : ProgramHeader) → IsCovered p → 0 < (region_of p).start
      starts p c = omega (arith, c.from)

      sized : (p : ProgramHeader) → 0 < aligned_memsz p → 0 < (region_of p).size
      sized p h = h

module _ (file : Device) (pos : IsReadable file) (bytes : HasBytes file) where
  headers-IsWord :
      (h : ElfHeader) (n i : ℕ) (ps : List ProgramHeader)
      → read_program_headers file h i n ≡ some ps
      → All IsWord ps
  unfolding read_program_headers
  headers-IsWord h zero i [] e = tt
  headers-IsWord h zero i (p ∷ ps) e = absurd (cc e)
  headers-IsWord h (suc n) i ps e = elim (read_program_header_lem file h i pos bytes) [
    | inl fails ↦ absurd (cc (rw (fails) at e))
    | inr (p, here, w) ↦ elim (Option-cases (read_program_headers file h (i + 1) n)) [
      | inl fails ↦ absurd (cc (rw (here, fails) at e))
      | inr (rest, others) ↦
          subst (All IsWord) (some_inj (p ∷ rest) ps (rw (here, others) at e))
            (w, headers-IsWord h n (i + 1) rest others)
    ]
  ]

  all-IsCovered :
      (ps : List ProgramHeader)
      → All IsWord ps
      → All IsGood ps
      → All (λ p. p.type ≡ 1 → IsCovered p) ps
  all-IsCovered [] w g = tt
  all-IsCovered (p ∷ ps) w g = ((λ t. covered p w.0 (g.0 t)), all-IsCovered ps w.1 g.1)

  -- For a file of bytes, in blocks that are not empty and can be read, that valid_load accepts: load reads the same
  -- program headers, fails no assertion, and returns the entry point, which one of the segments to
  -- load has in it. The regions that the process had stay in its queue, and for each segment to load
  -- it gets the pages from the one the segment starts in to the one it ends in, which start at or
  -- above 0x80000000 and end at or below 0xF0001000 or exactly at the end of the address space.
  pub load_lem :
      (queue : VmeQueue)
      → valid_load file ≡ some 1
      → (ps : List ProgramHeader) × (image : Image) × (read_program_headers file
            (header_of file)
            0
            (header_of file).phnum
          ≡ some ps)
        × (load file queue ≡ some ((header_of file).entry, image))
        × EntryIn (header_of file) ps
        × ((v : Vme) → Memᴰ v queue → Memᴰ v image.queue)
        × All (IsMapped image.queue) ps
  unfolding load
  load_lem queue valid =
      let (ps, l) = (valid_load-IsLoadable file pos bytes).0 valid in
      let words = headers-IsWord (header_of file) (header_of file).phnum 0 ps l.table in
      let (image, e, stays, mapped) =
        load_segments_lem file pos ps (record { queue = queue; written = [] })
          (all-IsCovered ps words l.placed) in
      (
        ps,
        image,
        l.table,
        rw (read_thing_lem file 0 header_size pos l.has_header, l.table, e) refl,
        l.entry_in,
        stays,
        mapped,
      )
