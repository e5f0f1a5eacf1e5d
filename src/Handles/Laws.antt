-- ===== src/Handles/Laws.antt =====
-- The assignments keep every count right, and write the one cell.
use simplified_os_kernel.Prelude.{
  ℕ, zero, suc, ◌+◌, ◌<◌, ◌≡◌, refl, ap, ◌∙◌, arith, none, some, List, [], ◌∷◌, ◌++◌, length,
  get_elem?, set, length-append, true, false, ◌⊎◌, inl, inr, Bool-cases, leb,
}
use simplified_os_kernel.Prelude.Words.{u32_mod}
use simplified_os_kernel.Shared.{Shared}
use simplified_os_kernel.Shared.Counts.{
  Table, refs, points, copy_assign-Table, move_assign_null-Table, make-Table, ref-Counts,
  Counts-cong, refs-get, refs-le, points-le,
}
use simplified_os_kernel.Handles.{
  Handles, is_bad, or_null, pointer, stored, assign_new, assign_copy, clear, hold, held, nulls,
  new_array, set_content,
}

pub cell_at :
    (cs : List Shared) (k : ℕ) → k < length cs → get_elem? cs k ≡ some (or_null (get_elem? cs k))
cell_at [] k h = absurd (omega arith)
cell_at (c ∷ cs) zero h = refl
cell_at (c ∷ cs) (suc k) h = cell_at cs k (omega arith)

pub last_cell : (cs : List Shared) (c : Shared) → get_elem? (cs ++ (c ∷ [])) (length cs) ≡ some c
last_cell [] c = refl
last_cell (d ∷ cs) c = last_cell cs c

refs-append : (p : ℕ) (xs ys : List Shared) → refs p (xs ++ ys) ≡ refs p xs + refs p ys
refs-append p [] ys = omega arith
refs-append p (x ∷ xs) ys = omega (arith, refs-append p xs ys)

pub refs-nulls : (p n : ℕ) → refs p (nulls n) ≡ 0
unfolding nulls
refs-nulls p zero = refl
refs-nulls p (suc n) = omega (arith, refs-nulls p n)

pub length-nulls : (n : ℕ) → length (nulls n) ≡ n
unfolding nulls
length-nulls zero = refl
length-nulls (suc n) = ap suc (length-nulls n)

module _ {T : Type 0} where
  -- Every count is right, and there are fewer pointers than a count can tell.
  abbrev pub Good : Handles T → Type 0
  Good h = Table h.store h.cells

  pub assign_new-Good :
      (v : T) (h : Handles T) (k : ℕ)
      → Good h
      → k < length h.cells
      → (h' : Handles T) × (assign_new v h k ≡ some h')
        × Good h'
        × (h'.cells ≡ set h.cells k (some h.store.next_name))
        × (h'.store.object h.store.next_name ≡ some (record { content = v; ref_count = 1 }))
  unfolding assign_new stored
  assign_new-Good v h k g b =
      let (s, e, t, o) = make-Table v h.store h.cells k (pointer h k) g (cell_at h.cells k b) in
      (record { store = s; cells = set h.cells k (some h.store.next_name) }, rw e refl, t, refl, o)

  pub assign_copy-Good :
      (h : Handles T) (k j : ℕ)
      → Good h
      → k < length h.cells
      → j < length h.cells
      → (h' : Handles T) × (assign_copy h k j ≡ some h')
        × Good h'
        × (h'.cells ≡ set h.cells k (pointer h j))
  unfolding assign_copy stored
  assign_copy-Good h k j g b b' =
      let (s, e, t) =
        copy_assign-Table h.store h.cells k j (pointer h k) (pointer h j) g (cell_at h.cells k b)
          (cell_at h.cells j b') in
      (record { store = s; cells = set h.cells k (pointer h j) }, rw e refl, t, refl)

  pub clear-Good :
      (h : Handles T) (k : ℕ)
      → Good h
      → k < length h.cells
      → (h' : Handles T) × (clear h k ≡ some h') × Good h' × (h'.cells ≡ set h.cells k none)
  unfolding clear stored
  clear-Good h k g b =
      let (s, e, t) =
        move_assign_null-Table h.store h.cells k (pointer h k) g (cell_at h.cells k b) in
      (record { store = s; cells = set h.cells k none }, rw e refl, t, refl)

  -- A local copy of the pointer in a cell is one pointer more.
  pub hold-Good :
      (h : Handles T) (k : ℕ)
      → Good h
      → k < length h.cells
      → length h.cells + 3 < u32_mod
      → (h' : Handles T) × (hold h k ≡ some h')
        × Good h'
        × (h'.cells ≡ h.cells ++ (pointer h k ∷ []))
  unfolding hold held
  hold-Good h k (few, c) b small =
      let (s, e, c') = ref-Counts h.store _ (pointer h k) c live bound in
      (
        record { store = s; cells = h.cells ++ (pointer h k ∷ []) },
        rw e refl,
        (
          omega (arith, small, length-append h.cells (pointer h k ∷ [])),
          Counts-cong s _ _ longer c',
        ),
        refl,
      )
    where
      live : (p : ℕ) → pointer h k ≡ some p → 0 < refs p h.cells
      live p e = refs-get p k h.cells (cell_at h.cells k b ∙ ap some e)

      bound : (p : ℕ) → refs p h.cells + points p (pointer h k) + 1 < u32_mod
      bound p = omega (arith, refs-le p h.cells, points-le p (pointer h k), small)

      longer :
          (p : ℕ) → refs p h.cells + points p (pointer h k) ≡ refs p (h.cells ++ (pointer h k ∷ []))
      longer p = omega (arith, refs-append p h.cells (pointer h k ∷ []))

  pub new_array-Good :
      (n : ℕ) (h : Handles T) → Good h → length h.cells + n + 2 < u32_mod → Good (new_array n h).1
  unfolding new_array
  new_array-Good n h (few, c) small = (
    omega (arith, length-append h.cells (nulls n), length-nulls n),
    Counts-cong h.store _ _ (λ p. omega (arith, refs-append p h.cells (nulls n), refs-nulls p n)) c,
  )

  pub set_content-Good : (h : Handles T) (p : ℕ) (v : T) → Good h → Good (set_content h p v)
  unfolding set_content
  set_content-Good h p v (few, c) = (
    few,
    record {
      counted = λ q. ground (arith, c.counted q);
      fresh = λ q b. ground (arith, c.fresh q b);
      few = c.few;
    },
  )

  pub valid_number :
      (h : Handles T) (base n i p : ℕ)
      → i < n
      → pointer h (base + i) ≡ some p
      → is_bad h base n i ≡ false
  valid_number h base n i p small pointed = rw (inside, pointed) refl
    where
      inside : leb n i ≡ false
      inside = ground arith

  pub is_bad_cases :
      (h : Handles T) (base n i : ℕ)
      → (is_bad h base n i ≡ true)
        ⊎ ((is_bad h base n i ≡ false) × (i < n) × ((p : ℕ) × (pointer h (base + i) ≡ some p)))
  is_bad_cases h base n i = elim (Bool-cases (leb n i)) [
    | inl out ↦ inl (rw out refl)
    | inr inside ↦
        by_pointer (pointer h (base + i)) (λ e. rw (inside, e) refl) (λ p e. rw (inside, e) refl)
          (ground arith)
  ]
    where
      by_pointer :
          (c : Shared)
          → (c ≡ none → is_bad h base n i ≡ true)
          → ((p : ℕ) → c ≡ some p → is_bad h base n i ≡ false)
          → i < n
          → (is_bad h base n i ≡ true)
            ⊎ ((is_bad h base n i ≡ false) × (i < n) × ((p : ℕ) × (c ≡ some p)))
      by_pointer none bad ok lt = inl (bad refl)
      by_pointer (some p) bad ok lt = inr (ok p refl, lt, (p, refl))
