-- ===== src/Vmm/Page.antt =====
-- `map_page`: the two steps of the walk together.
use simplified_os_kernel.Prelude.{
  ℕ, ◌+◌, ◌/◌, ◌%◌, ◌≤◌, ◌<◌, ◌≡◌, ◌≢◌, ◌⊎◌, inl, inr, refl, sym, ◌∙◌, true, false, Option, none,
  some, List, arith,
}
use native.Mathlib.Decide.{ℕ_discrete}
use simplified_os_kernel.Prelude.Words.{u32_mod}
use simplified_os_kernel.PhysMem.{PhysMem}
use simplified_os_kernel.PhysMem.Free.{IsFree, is_out}
use simplified_os_kernel.Vmm.{
  entry, present, page_of, fill_entry, map_page, directory_index, table_index,
}
use simplified_os_kernel.Vmm.Space.{
  IsSpace, translate, directory_index-lt, table_index-lt, page_indices,
}
use simplified_os_kernel.Vmm.Fault.{Filled, Exhausted, Full, fill_entry_lem}
use simplified_os_kernel.Vmm.Map.{
  directory_filled, directory_filled-translate, frame_filled, frame_filled-here,
  frame_filled-translate,
}

-- The page of `va` is backed: by the frame that backed it, or by a clear frame that was not out; the
-- rest of the address space stays as it was.
pub record Backed (base : ℕ) (s : PhysMem) (fs : List ℕ) (d va : ℕ) (s' : PhysMem) (fs' : List ℕ)
    : Type 0 where
  pub free : IsFree base s' fs'
  pub space : IsSpace base s' fs' d
  pub here :
      ((x : ℕ) × (translate s d va ≡ some x) × (translate s' d va ≡ some x))
      ⊎ ((p : ℕ) × (translate s d va ≡ none)
          × (translate s' d va ≡ some (p + va % 4096))
          × (is_out base s fs p ≡ false)
          × ((x : ℕ) → p ≤ x → x < p + 4096 → s'.memory x ≡ 0))
  pub others :
      (vb : ℕ) → vb < u32_mod → vb / 4096 ≢ va / 4096 → translate s' d vb ≡ translate s d vb

-- A panic, for want of frames, or the page backed.
abbrev pub MapResult : Type 0 → ℕ → PhysMem → List ℕ → ℕ → ℕ → Option PhysMem → Type 0
MapResult Want base s fs d va r =
    ((r ≡ none) × Want)
    ⊎ ((s' : PhysMem) × (fs' : List ℕ) × (r ≡ some s') × Backed base s fs d va s' fs')

module _ (base : ℕ) (d va : ℕ) (h : va < u32_mod) where
  abbrev under : PhysMem → ℕ
  under s = page_of (entry s d (directory_index va))

  indices_apart :
      (vb : ℕ)
      → vb / 4096 ≢ va / 4096
      → (directory_index vb ≢ directory_index va) ⊎ (table_index vb ≢ table_index va)
  indices_apart vb ne = elim (ℕ_discrete (directory_index vb) (directory_index va)) [
    | no other ↦ inl other
    | yes same ↦ elim (ℕ_discrete (table_index vb) (table_index va)) [
      | no other ↦ inr other
      | yes same' ↦ absurd (ne (page_indices vb va same same'))
    ]
  ]

  -- With the table there, the second step is the whole.
  frame_step :
      (s : PhysMem) (fs : List ℕ)
      → IsFree base s fs
      → IsSpace base s fs d
      → present (entry s d (directory_index va)) ≡ true
      → MapResult (Full base s fs) base s fs d va (fill_entry s (under s) (table_index va) 0x107)
  frame_step s fs r is here =
      elim (fill_entry_lem base s fs (under s) (table_index va) 0x107 r t.0 (table_index-lt va)
        (omega arith) refl) [
          | inl (there, e) ↦ inr (
            s,
            fs,
            e,
            record {
              free = r;
              space = is;
              here = inl (
                page_of (entry s (under s) (table_index va)) + va % 4096,
                rw (here, there),
                rw (here, there),
              );
              others = λ vb b ne. refl;
            },
          )
          | inr (inl (e, full)) ↦ inl (e, full)
          | inr (inr (p, s', fs', gone, e, _, filled)) ↦ inr (
            s',
            fs',
            e,
            record {
              free = filled.free;
              space =
                  frame_filled filled t.0 (table_index-lt va) d (directory_index va) is hd here
                    refl;
              here = inr (
                p,
                rw (here, gone),
                frame_filled-here filled t.0 (table_index-lt va) d (directory_index va) is hd here
                    refl va refl refl,
                filled.was_in,
                filled.clear,
              );
              others = λ vb b ne.
                  frame_filled-translate filled t.0 (table_index-lt va) d (directory_index va) is hd
                    here refl vb b (indices_apart vb ne);
            },
          )
        ]
    where
      hd : directory_index va < 1024
      hd = directory_index-lt va h

      t : (is_out base s fs (under s) ≡ true) × (under s ≢ d)
      t = is.tables_out (directory_index va) hd here

  -- What the second step does to the state after the first one holds of the state before.
  Backed-directory :
      (s : PhysMem) (fs : List ℕ) (p : ℕ) (s' : PhysMem) (fs' : List ℕ)
      → is_out base s fs d ≡ true
      → IsSpace base s fs d
      → present (entry s d (directory_index va)) ≡ false
      → Filled base s fs d (directory_index va) p s' fs'
      → (t : PhysMem) (gs : List ℕ) → Backed base s' fs' d va t gs
      → Backed base s fs d va t gs
  Backed-directory s fs p s' fs' o is gone filled t gs b = record {
    free = b.free;
    space = b.space;
    here = elim b.here [
      | inl (x, old, new) ↦ inl (x, sym (same va h) ∙ old, new)
      | inr (q, old, new, was_in, clear) ↦
          inr (q, sym (same va h) ∙ old, new, ground (arith, filled.out q), clear)
    ];
    others = λ vb bound ne. b.others vb bound ne ∙ same vb bound;
  }
    where
      same : (vb : ℕ) → vb < u32_mod → translate s' d vb ≡ translate s d vb
      same vb bound = directory_filled-translate filled o (directory_index-lt va h) vb bound is gone

  -- A page fault in a region backs the page of the address: after `map_page` the processor's walk finds
  -- a frame for it, the one that was there or a clear frame that was not out before; every other page
  -- of the address space is translated as before; the directory and its tables still are distinct
  -- frames that are out. The kernel panics only when at most one frame of physical memory is left.
  pub map_page_lem :
      (s : PhysMem) (fs : List ℕ)
      → IsFree base s fs
      → IsSpace base s fs d
      → MapResult (Exhausted base s fs) base s fs d va (map_page s d va)
  unfolding map_page
  map_page_lem s fs r is =
      elim (fill_entry_lem base s fs d (directory_index va) 0x7 r is.directory_out
        (directory_index-lt va h) (omega arith) refl) [
          | inl (there, e) ↦ rw e (elim (frame_step s fs r is there) [
            | inl (e', full) ↦ inl (e', (0, λ f ne. full f))
            | inr done ↦ inr done
          ])
          | inr (inl (e, full)) ↦ inl (rw e refl, (0, λ f ne. full f))
          | inr (inr (p, s', fs', gone, e, lim, filled)) ↦
              rw e
                (elim (frame_step s' fs' filled.free
                  (directory_filled filled is.directory_out (directory_index-lt va h) is)
                  filled.entry_present) [
                    | inr (t, gs, e', b) ↦ inr (
                      t,
                      gs,
                      e',
                      Backed-directory s fs p s' fs' is.directory_out is gone filled t gs b,
                    )
                    | inl (e', full) ↦ inl (e', (p, λ f ne. ground (arith, full f, filled.out f)))
                  ])
        ]
