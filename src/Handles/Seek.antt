-- ===== src/Handles/Seek.antt =====
-- The search for a null pointer, and the loop of `fork` that copies an array.
use simplified_os_kernel.Prelude.{
  ℕ, zero, suc, ◌+◌, ◌≤◌, ◌<◌, ◌≡◌, ◌≢◌, refl, ap, ◌∙◌, arith, true, false, none, some, length,
  get_elem?, set, ◌⊎◌, inl, inr, Bool-cases, length-set, subst, ◌==◌, ==→eq, ==→ne,
  get_elem?-set_self, get_elem?-set_ne,
}
use simplified_os_kernel.Shared.{Shared}
use simplified_os_kernel.Handles.{Handles, is_null, or_null, pointer, assign_copy, seek, inherit}
use simplified_os_kernel.Handles.Laws.{Good, assign_copy-Good}

null-none : (c : Shared) → is_null c ≡ true → c ≡ none
null-none none h = refl
null-none (some p) h = cc

module _ {T : Type 0} where
  -- The loop finds the first null pointer of a range, if there is one.
  pub seek_lem :
      (h : Handles T) (base i left : ℕ)
      → ((seek h base i left ≡ none)
          × ((j : ℕ) → i ≤ j → j < i + left → is_null (pointer h (base + j)) ≡ false))
        ⊎ ((k : ℕ) × (seek h base i left ≡ some k)
            × (i ≤ k)
            × (k < i + left)
            × (pointer h (base + k) ≡ none)
            × ((j : ℕ) → i ≤ j → j < k → is_null (pointer h (base + j)) ≡ false))
  unfolding seek
  seek_lem h base i zero = inl (refl, λ j a b. absurd (omega (arith, a, b)))
  seek_lem h base i (suc left) = elim (Bool-cases (is_null (pointer h (base + i)))) [
    | inl free ↦ inr (
      i,
      rw free refl,
      omega arith,
      omega arith,
      null-none _ free,
      λ j a b. absurd (omega (arith, a, b)),
    )
    | inr used ↦ elim (seek_lem h base (i + 1) left) [
      | inl (e, all) ↦ inl (rw used e, λ j a b. from i j used a (λ a'. all j a' (omega (arith, b))))
      | inr (k, e, lo, hi, null, all) ↦ inr (
        k,
        rw used e,
        omega arith,
        omega arith,
        null,
        λ j a b. from i j used a (λ a'. all j a' b),
      )
    ]
  ]
    where
      from :
          (i j : ℕ)
          → is_null (pointer h (base + i)) ≡ false
          → i ≤ j
          → (i + 1 ≤ j → is_null (pointer h (base + j)) ≡ false)
          → is_null (pointer h (base + j)) ≡ false
      from i j used a later = elim (Bool-cases (i == j)) [
        | inl e ↦ subst (λ m. is_null (pointer h (base + m)) ≡ false) (==→eq i j e) used
        | inr ne ↦ later (omega (arith, ==→ne i j ne))
      ]

  pub pointer_self :
      (h h' : Handles T) (k : ℕ) (p : Shared)
      → h'.cells ≡ set h.cells k p
      → k < length h.cells
      → pointer h' k ≡ p
  pointer_self h h' k p e b =
      ap (λ cs. or_null (get_elem? cs k)) e ∙ ap or_null (get_elem?-set_self h.cells k p b)

  pub pointer_ne :
      (h h' : Handles T) (k j : ℕ) (p : Shared)
      → h'.cells ≡ set h.cells k p
      → k ≢ j
      → pointer h' j ≡ pointer h j
  pointer_ne h h' k j p e d =
      ap (λ cs. or_null (get_elem? cs j)) e ∙ ap or_null (get_elem?-set_ne h.cells k j p d)

  -- What the loop of `fork` leaves: the entries from `i` on are those of the parent, all else is as before.
  pub record Inherited (parent child i left : ℕ) (h h' : Handles T) : Type 0 where
    pub good : Good h'
    pub same_length : length h'.cells ≡ length h.cells
    pub copied : (j : ℕ) → i ≤ j → j < i + left → pointer h' (child + j) ≡ pointer h (parent + j)
    pub others : (q : ℕ) → (q < child + i) ⊎ (child + i + left ≤ q) → pointer h' q ≡ pointer h q

  Inherited-suc :
      (parent child i left : ℕ) (h h₁ h' : Handles T)
      → parent + i + suc left ≤ child
      → child + i + suc left ≤ length h.cells
      → h₁.cells ≡ set h.cells (child + i) (pointer h (parent + i))
      → length h₁.cells ≡ length h.cells
      → Inherited parent child (i + 1) left h₁ h'
      → Inherited parent child i (suc left) h h'
  Inherited-suc parent child i left h h₁ h' apart room w n l = record {
    good = l.good;
    same_length = l.same_length ∙ n;
    copied = λ j a b. elim (Bool-cases (i == j)) [
      | inl e ↦ subst (λ m. pointer h' (child + m) ≡ pointer h (parent + m)) (==→eq i j e) first
      | inr ne ↦
          l.copied j (omega (arith, a, ==→ne i j ne)) (omega (arith, b))
          ∙ pointer_ne h h₁ (child + i) (parent + j) _ w (λ e. omega (arith, e, apart, b))
    ];
    others = λ q o.
        l.others q (ground (arith, o))
        ∙ pointer_ne h h₁ (child + i) q _ w (λ e. ground (arith, o, e));
  }
    where
      first : pointer h' (child + i) ≡ pointer h (parent + i)
      first =
          l.others (child + i) (inl (omega arith))
          ∙ pointer_self h h₁ (child + i) _ w (omega (arith, room))

  round :
      (parent child i left : ℕ) (h h₁ : Handles T)
      → assign_copy h (child + i) (parent + i) ≡ some h₁
      → inherit parent child i (suc left) h ≡ inherit parent child (i + 1) left h₁
  unfolding inherit
  round parent child i left h h₁ e = rw (inherit, e) refl

  -- fork's loop `child[i] = parent[i]`, from round i on, on right counts and with the child's array
  -- after the parent's, uses no deleted object: the child's entries become the parent's, all other
  -- pointers are as before, and every count is right.
  pub inherit_lem :
      (parent child i left : ℕ) (h : Handles T)
      → Good h
      → parent + i + left ≤ child
      → child + i + left ≤ length h.cells
      → (h' : Handles T) × (inherit parent child i left h ≡ some h')
        × Inherited parent child i left h h'
  unfolding inherit
  inherit_lem parent child i zero h g apart room = (
    h,
    refl,
    record {
      good = g;
      same_length = refl;
      copied = λ j a b. absurd (omega (arith, a, b));
      others = λ q o. refl;
    },
  )
  inherit_lem parent child i (suc left) h g apart room =
      let (h₁, e₁, g₁, w) =
        assign_copy-Good h (child + i) (parent + i) g (omega arith) (omega arith) in
      let n = ap length w ∙ length-set h.cells (child + i) (pointer h (parent + i)) in
      let (h', e', l) =
        inherit_lem parent child (i + 1) left h₁ g₁ (omega arith) (omega (arith, n)) in
      (
        h',
        round parent child i left h h₁ e₁ ∙ e',
        Inherited-suc parent child i left h h₁ h' apart room w n l,
      )
