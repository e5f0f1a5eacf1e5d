-- ===== src/Vmm/Map.antt =====
-- Backing an address with a frame: the address space keeps its shape, and no other page moves.
use simplified_os_kernel.Prelude.{
  ℕ, ◌+◌, ◌*◌, ◌%◌, ◌<◌, ◌≡◌, ◌≢◌, ◌⊎◌, inl, inr, refl, sym, ◌∙◌, true, false, some, List, arith,
  Bool-cases,
}
use native.Mathlib.Decide.{ℕ_discrete}
use simplified_os_kernel.Prelude.Words.{u32_mod}
use simplified_os_kernel.PhysMem.{PhysMem}
use simplified_os_kernel.PhysMem.Free.{is_out}
use simplified_os_kernel.Vmm.{entry, present, page_of, directory_index, table_index}
use simplified_os_kernel.Vmm.Space.{IsSpace, translate, directory_index-lt, table_index-lt}
use simplified_os_kernel.Vmm.Fault.{Filled, out_frame, outside}

present_zero : present 0 ≡ false
unfolding present
present_zero = refl

module _ {base : ℕ} {s : PhysMem} {fs : List ℕ} {table i p : ℕ} {s' : PhysMem} {fs' : List ℕ}
    (filled : Filled base s fs table i p s' fs') (o : is_out base s fs table ≡ true)
    (hi : i < 1024) where
  still_out : (f : ℕ) → is_out base s fs f ≡ true → is_out base s' fs' f ≡ true
  still_out f h = ground (arith, filled.out f)

  ne_new : (f : ℕ) → is_out base s fs f ≡ true → f ≢ p
  ne_new f h = ground (arith, filled.was_in)

  entry_kept :
      (f j : ℕ)
      → is_out base s fs f ≡ true
      → j < 1024
      → ((f ≢ table) ⊎ (j ≢ i))
      → entry s' f j ≡ entry s f j
  entry_kept f j h hj ne =
      filled.rest (f + 4 * j)
        (omega (arith, (out_frame base s fs f h).0, (out_frame base s fs table o).0))
        (outside f p j (out_frame base s fs f h).0 filled.aligned (ne_new f h) hj)

  new_clear : (k : ℕ) → k < 1024 → entry s' p k ≡ 0
  new_clear k h = filled.clear (p + 4 * k) (omega arith) (omega arith)

  -- An entry of the table is the one filled, or what it was.
  entry_cases :
      (j : ℕ)
      → j < 1024
      → ((j ≡ i) × (page_of (entry s' table j) ≡ p))
        ⊎ ((j ≢ i) × (entry s' table j ≡ entry s table j))
  entry_cases j h = elim (ℕ_discrete j i) [
    | yes same ↦ inl (same, rw same filled.entry_page)
    | no other ↦ inr (other, entry_kept table j o h (inr other))
  ]

  -- The new frame is a table of the directory.
  pub directory_filled : IsSpace base s fs table → IsSpace base s' fs' table
  directory_filled is = record {
    directory_out = still_out table o;
    tables_out = λ j hj here. elim (entry_cases j hj) [
      | inl (_, new) ↦ rw new (ground (arith, filled.out p), λ e. ne_new table o (sym e))
      | inr (_, kept) ↦
          let old = is.tables_out j hj (rw kept at here) in
          (rw kept (still_out _ old.0), rw kept old.1)
    ];
    tables_apart = λ j k hj hk ne here there. elim (entry_cases j hj) [
      | inl (at_j, new) ↦ elim (entry_cases k hk) [
        | inl (at_k, _) ↦ absurd (ne (at_j ∙ sym at_k))
        | inr (_, kept) ↦
            rw (new, kept) λ e. ne_new _ (is.tables_out k hk (rw kept at there)).0 (sym e)
      ]
      | inr (_, kept_j) ↦ elim (entry_cases k hk) [
        | inl (_, new) ↦ rw (new, kept_j) (ne_new _ (is.tables_out j hj (rw kept_j at here)).0)
        | inr (_, kept_k) ↦
            rw (kept_j, kept_k)
              (is.tables_apart j k hj hk ne (rw kept_j at here) (rw kept_k at there))
      ]
    ];
  }

  -- A new table backs no address yet.
  pub directory_filled-translate :
      (va : ℕ)
      → va < u32_mod
      → IsSpace base s fs table
      → present (entry s table i) ≡ false
      → translate s' table va ≡ translate s table va
  directory_filled-translate va h is gone = elim (ℕ_discrete (directory_index va) i) [
    | yes same ↦ rw (
      same,
      gone,
      filled.entry_present,
      filled.entry_page,
      new_clear (table_index va) (table_index-lt va),
      present_zero,
    )
    | no other ↦
        rw (entry_kept table (directory_index va) o (directory_index-lt va h) (inr other))
          (elim (Bool-cases (present (entry s table (directory_index va)))) [
            | inl here ↦
                let t = is.tables_out (directory_index va) (directory_index-lt va h) here in
                rw (here, entry_kept _ (table_index va) t.0 (table_index-lt va) (inl t.1))
            | inr none_there ↦ rw none_there
          ])
  ]

  -- A frame under a table `d`'s directory entry leads to.
  module _ (d j : ℕ) (is : IsSpace base s fs d) (hj : j < 1024)
      (here : present (entry s d j) ≡ true) (at : page_of (entry s d j) ≡ table) where
    dir_kept : (k : ℕ) → k < 1024 → entry s' d k ≡ entry s d k
    dir_kept k h =
        entry_kept d k is.directory_out h (inl (λ e. (is.tables_out j hj here).1 (at ∙ sym e)))

    pub frame_filled : IsSpace base s' fs' d
    frame_filled = record {
      directory_out = still_out d is.directory_out;
      tables_out = λ k hk h. rw (dir_kept k hk) (
        still_out _ (is.tables_out k hk (rw (dir_kept k hk) at h)).0,
        (is.tables_out k hk (rw (dir_kept k hk) at h)).1,
      );
      tables_apart = λ k l hk hl ne h h'.
          rw (dir_kept k hk, dir_kept l hl)
            (is.tables_apart k l hk hl ne (rw (dir_kept k hk) at h) (rw (dir_kept l hl) at h'));
    }

    -- The page of the entry is backed by the new frame.
    pub frame_filled-here :
        (va : ℕ)
        → directory_index va ≡ j
        → table_index va ≡ i
        → translate s' d va ≡ some (p + va % 4096)
    frame_filled-here va e e' =
        rw (e, dir_kept j hj, here, at, e', filled.entry_present, filled.entry_page)

    -- No other page is touched.
    pub frame_filled-translate :
        (va : ℕ)
        → va < u32_mod
        → ((directory_index va ≢ j) ⊎ (table_index va ≢ i))
        → translate s' d va ≡ translate s d va
    frame_filled-translate va h ne =
        rw (dir_kept (directory_index va) hv)
          (elim (Bool-cases (present (entry s d (directory_index va)))) [
            | inl there ↦ rw (
              there,
              entry_kept _ (table_index va) (is.tables_out _ hv there).0 (table_index-lt va)
                  (apart there),
            )
            | inr none_there ↦ rw none_there
          ])
      where
        hv : directory_index va < 1024
        hv = directory_index-lt va h

        apart :
            present (entry s d (directory_index va)) ≡ true
            → (page_of (entry s d (directory_index va)) ≢ table) ⊎ (table_index va ≢ i)
        apart there = elim (ℕ_discrete (directory_index va) j) [
          | yes same ↦ elim ne [ inl other ↦ absurd (other same) | inr other ↦ inr other ]
          | no other ↦ inl (λ e. is.tables_apart _ j hv hj other there here (e ∙ sym at))
        ]
