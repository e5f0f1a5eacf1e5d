-- ===== src/Shared/Counts.antt =====
-- Every count is the number of pointers to the object.
use simplified_os_kernel.Prelude.{
  ℕ, zero, suc, ◌+◌, ◌-◌, ◌≤◌, ◌<◌, ◌≡◌, refl, inl, inr, true, false, Option, none, some, List, [],
  ◌∷◌, arith, ◌==◌, if◌then◌else◌, length, get_elem?, set, Option-cases, some_inj, ap, sym, ◌∙◌,
  Bool-cases, ==→eq, length-set,
}
use native.Mathlib.Nat.{mod-eq_of_lt}
use simplified_os_kernel.Prelude.Words.{u32_mod, sub32}
use simplified_os_kernel.Shared.{
  Counted, Store, Shared, same, update, ref, ref_object, unref, unref_object, reference, moved,
  copy_assign, move_assign, make,
}

-- The pointers of a table that point to `p`.
abbrev pub points : ℕ → Shared → ℕ
points p none = 0
points p (some q) = if p == q then 1 else 0

abbrev pub refs : ℕ → List Shared → ℕ
refs p [] = 0
refs p (h ∷ hs) = points p h + refs p hs

module _ {T : Type 0} where
  abbrev pub Matches : Option (Counted T) → ℕ → Type 0
  Matches none n = n ≡ 0
  Matches (some c) n = (c.ref_count ≡ n) × (0 < n)

  -- `r p` pointers point to `p`.
  pub record Counts (s : Store T) (r : ℕ → ℕ) : Type 0 where
    pub counted : (p : ℕ) → Matches (s.object p) (r p)
    pub fresh : (p : ℕ) → s.next_name ≤ p → s.object p ≡ none
    pub few : (p : ℕ) → r p + 1 < u32_mod

  pub Counts-cong : (s : Store T) (r r' : ℕ → ℕ) → ((p : ℕ) → r p ≡ r' p) → Counts s r → Counts s r'
  Counts-cong s r r' e c = record {
    counted = λ p. rw (← e p) (c.counted p);
    fresh = c.fresh;
    few = λ p. rw (← e p) (c.few p);
  }

  pub object_live :
      (s : Store T) (r : ℕ → ℕ) (p : ℕ)
      → Counts s r
      → 0 < r p
      → (c : Counted T) × (s.object p ≡ some c) × (c.ref_count ≡ r p)
  object_live s r p k h = elim (Option-cases (s.object p)) [
    | inl gone ↦ absurd (ground (arith, k.counted p))
    | inr (c, e) ↦ (c, e, ground (arith, k.counted p))
  ]

  -- The store after a pointer to `p` was made, or taken away.
  pub ref-Counts :
      (s : Store T) (r : ℕ → ℕ) (h : Shared)
      → Counts s r
      → ((p : ℕ) → h ≡ some p → 0 < r p)
      → ((p : ℕ) → r p + points p h + 1 < u32_mod)
      → (s' : Store T) × (ref h s ≡ some s') × Counts s' (λ q. r q + points q h)
  unfolding ref ref_object
  ref-Counts s r none k live few = (s, refl, Counts-cong s r _ (λ p. omega arith) k)
  ref-Counts s r (some p) k live few =
      let (c, e, n) = object_live s r p k (live p refl) in
      (
        update s p (some (record c { ref_count = c.ref_count + 1 })),
        rw (e, mod-eq_of_lt (count_fits c n)),
        record {
          counted = λ q. ground (arith, k.counted q, n);
          fresh = λ q h. ground (arith, k.fresh q, e);
          few = few;
        },
      )
    where
      count_fits : (c : Counted T) → c.ref_count ≡ r p → c.ref_count + 1 < u32_mod
      count_fits c n = omega (arith, n, k.few p)

  unref-Counts :
      (s : Store T) (r : ℕ → ℕ) (h : Shared)
      → Counts s r
      → ((p : ℕ) → h ≡ some p → 0 < r p)
      → (s' : Store T) × (unref h s ≡ some s') × Counts s' (λ q. r q - points q h)
  unfolding unref unref_object
  unref-Counts s r none k live = (s, refl, Counts-cong s r _ (λ p. omega arith) k)
  unref-Counts s r (some p) k live =
      let (c, e, n) = object_live s r p k (live p refl) in
      (
        update s p (if r p - 1 == 0 then none else some (record c { ref_count = r p - 1 })),
        rw (e, n, dec_word) refl,
        record {
          counted = λ q. ground (arith, k.counted q, n);
          fresh = λ q h. ground (arith, k.fresh q, e);
          few = λ q. omega (arith, k.few q);
        },
      )
    where
      dec_word : sub32 (r p) 1 ≡ r p - 1
      dec_word = omega (arith, live p refl, k.few p)

pub refs-le : (p : ℕ) (hs : List Shared) → refs p hs ≤ length hs
refs-le p [] = omega arith
refs-le p (none ∷ hs) = omega (arith, refs-le p hs)
refs-le p (some q ∷ hs) = ground (arith, refs-le p hs)

-- Writing one slot moves one pointer.
refs-set :
    (p i : ℕ) (hs : List Shared) (old new : Shared)
    → get_elem? hs i ≡ some old
    → refs p (set hs i new) + points p old ≡ refs p hs + points p new
refs-set p i [] old new h = cc
refs-set p zero (g ∷ hs) old new h = ground arith
refs-set p (suc i) (g ∷ hs) old new h = omega (arith, refs-set p i hs old new h)

pub points-le : (p : ℕ) (h : Shared) → points p h ≤ 1
points-le p none = omega arith
points-le p (some q) = ground arith

refs-slot :
    (p i : ℕ) (hs : List Shared) (h : Shared) → get_elem? hs i ≡ some h → points p h ≤ refs p hs
refs-slot p i [] h e = cc
refs-slot p zero (g ∷ hs) h e = ground arith
refs-slot p (suc i) (g ∷ hs) h e = omega (arith, refs-slot p i hs h e)

pub refs-get : (p i : ℕ) (hs : List Shared) → get_elem? hs i ≡ some (some p) → 0 < refs p hs
refs-get p i [] h = cc
refs-get p zero (none ∷ hs) h = cc
refs-get p zero (some q ∷ hs) h = ground arith
refs-get p (suc i) (g ∷ hs) h = omega (arith, refs-get p i hs h)

set_same :
    (p i : ℕ) (hs : List Shared) (old new : Shared)
    → get_elem? hs i ≡ some old
    → old ≡ new
    → refs p hs ≡ refs p (set hs i new)
set_same p i hs old new h e = omega (arith, refs-set p i hs old new h, ap (points p) e)

same-eq : (a b : Shared) → same a b ≡ true → a ≡ b
same-eq none none h = refl
same-eq none (some q) h = cc
same-eq (some p) none h = cc
same-eq (some p) (some q) h = ap some (==→eq p q h)

same-ne : (p : ℕ) (a b : Shared) → same a b ≡ false → b ≡ some p → points p a ≡ 0
same-ne p none b h e = refl
same-ne p (some q) none h e = cc
same-ne p (some q) (some q') h e = ground arith

live_slot :
    (hs : List Shared) (i : ℕ) (h : Shared)
    → get_elem? hs i ≡ some h
    → (p : ℕ) → h ≡ some p
    → 0 < refs p hs
live_slot hs i h e p e' = refs-get p i hs (e ∙ ap some e')

-- The table with every pointer of the kernel to objects of a kind.
module _ {T : Type 0} where
  abbrev pub Table : Store T → List Shared → Type 0
  Table s hs = (length hs + 2 < u32_mod) × Counts s (λ p. refs p hs)

  -- `table[i] = table[j]`, for a table that holds every pointer of the kernel to objects of a kind,
  -- with right counts: the assignment uses no deleted object, writes the slot, and leaves every
  -- count right, so that an object lives exactly while the table points to it.
  pub copy_assign-Table :
      (s : Store T) (hs : List Shared) (i j : ℕ) (old new : Shared)
      → Table s hs
      → get_elem? hs i ≡ some old
      → get_elem? hs j ≡ some new
      → (s' : Store T) × (copy_assign old new s ≡ some (new, s')) × Table s' (set hs i new)
  unfolding copy_assign reference
  copy_assign-Table s hs i j old new (few, k) hi hj = elim (Bool-cases (same old new)) [
    | inl yes_same ↦
        let e = same-eq old new yes_same in
        (
          s,
          rw yes_same (ap (λ h. some (h, s)) e),
          (rw (length-set hs i new) few, Counts-cong s _ _ (λ p. set_same p i hs old new hi e) k),
        )
    | inr other ↦
        let (s₁, e₁, k₁) = unref-Counts s _ old k (live_slot hs i old hi) in
        let (s₂, e₂, k₂) = ref-Counts s₁ _ new k₁ (live other) bound in
        (
          s₂,
          rw (other, e₁, reference, e₂) refl,
          (rw (length-set hs i new) few, Counts-cong s₂ _ _ (λ p. moved_one p other) k₂),
        )
  ]
    where
      live : same old new ≡ false → (p : ℕ) → new ≡ some p → 0 < refs p hs - points p old
      live other p e = omega (arith, live_slot hs j new hj p e, same-ne p old new other e)

      bound : (p : ℕ) → refs p hs - points p old + points p new + 1 < u32_mod
      bound p = omega (arith, refs-le p hs, points-le p new, few)

      moved_one :
          (p : ℕ)
          → same old new ≡ false
          → refs p hs - points p old + points p new ≡ refs p (set hs i new)
      moved_one p other = omega (arith, refs-set p i hs old new hi, refs-slot p i hs old hi)

  -- `table[i] = {}`, for a table that holds every pointer of the kernel to objects of a kind, with
  -- right counts: the assignment uses no deleted object, clears the slot, and leaves every count
  -- right, so that the object of the slot is deleted exactly when no other slot points to it.
  pub move_assign_null-Table :
      (s : Store T) (hs : List Shared) (i : ℕ) (old : Shared)
      → Table s hs
      → get_elem? hs i ≡ some old
      → (s' : Store T) × (move_assign old none s ≡ some (none, s')) × Table s' (set hs i none)
  unfolding move_assign moved
  move_assign_null-Table s hs i none (few, k) hi = (
    s,
    refl,
    (rw (length-set hs i none) few, Counts-cong s _ _ (λ p. set_same p i hs none none hi refl) k),
  )
  move_assign_null-Table s hs i (some q) (few, k) hi =
      let (s₁, e₁, k₁) = unref-Counts s _ (some q) k (live_slot hs i (some q) hi) in
      (s₁, rw (e₁, moved) refl, (rw (length-set hs i none) few, Counts-cong s₁ _ _ gone k₁))
    where
      gone : (p : ℕ) → refs p hs - points p (some q) ≡ refs p (set hs i none)
      gone p = omega (arith, refs-set p i hs (some q) none hi)

  none_refer : (s : Store T) (r : ℕ → ℕ) → Counts s r → r s.next_name ≡ 0
  none_refer s r k = ground (arith, k.counted s.next_name, k.fresh s.next_name (omega arith))

  unref_object_frame :
      (s s' : Store T) (q p : ℕ) (c : Option (Counted T))
      → unref_object s q c ≡ some s'
      → (p == q) ≡ false
      → s'.object p ≡ s.object p
  unfolding unref_object
  unref_object_frame s s' q p none e far = cc
  unref_object_frame s s' q p (some c) e far =
      rw (far) at (ap (λ t. t.object p) (sym (some_inj _ s' e)))

  unref_frame :
      (h : Shared) (s s' : Store T) (p : ℕ)
      → unref h s ≡ some s'
      → points p h ≡ 0
      → s'.object p ≡ s.object p
  unfolding unref
  unref_frame none s s' p e far = ap (λ t. t.object p) (sym (some_inj s s' e))
  unref_frame (some q) s s' p e far =
      unref_object_frame s s' q p (s.object q) e (ground (arith, far))

  new_object :
      (v : T) (s : Store T)
      → (make v s).1.object s.next_name ≡ some (record { content = v; ref_count = 1 })
  unfolding make
  new_object v s = ground arith

  -- A new object, with its one pointer.
  make-Counts :
      (v : T) (s : Store T) (r : ℕ → ℕ)
      → Counts s r
      → Counts (make v s).1 (λ p. r p + points p (some s.next_name))
  unfolding make
  make-Counts v s r k = record {
    counted = λ p. ground (arith, k.counted p, none_refer s r k);
    fresh = λ p h. ground (arith, k.fresh p (omega (arith, h)), h);
    few = λ p. ground (arith, k.few p, none_refer s r k);
  }

  -- `table[i] = Shared<T>::make(v)`, for a table that holds every pointer of the kernel to objects
  -- of a kind, with right counts: the slot gets a new name, whose object has the content v and the
  -- count 1, and every count stays right.
  pub make-Table :
      (v : T) (s : Store T) (hs : List Shared) (i : ℕ) (old : Shared)
      → Table s hs
      → get_elem? hs i ≡ some old
      → (s' : Store T) × (move_assign old (make v s).0 (make v s).1 ≡ some (some s.next_name, s'))
        × Table s' (set hs i (some s.next_name))
        × (s'.object s.next_name ≡ some (record { content = v; ref_count = 1 }))
  unfolding move_assign moved make
  make-Table v s hs i old (few, k) hi =
      let made = make-Counts v s _ k in
      let (s₁, e₁, k₁) = unref-Counts (make v s).1 _ old made live in
      (
        s₁,
        rw (other, e₁) refl,
        (rw (length-set hs i (some s.next_name)) few, Counts-cong s₁ _ _ gone k₁),
        unref_frame old (make v s).1 s₁ s.next_name e₁ untouched ∙ new_object v s,
      )
    where
      nobody : refs s.next_name hs ≡ 0
      nobody = none_refer s _ k

      other : same old (some s.next_name) ≡ false
      other = elim (Bool-cases (same old (some s.next_name))) [
        | inl e ↦ absurd (
            omega (
              arith,
              nobody,
              refs-get s.next_name i hs (hi ∙ ap some (same-eq old (some s.next_name) e)),
            ))
        | inr e ↦ e
      ]

      untouched : points s.next_name old ≡ 0
      untouched = omega (arith, nobody, refs-slot s.next_name i hs old hi)

      live : (p : ℕ) → old ≡ some p → 0 < refs p hs + points p (some s.next_name)
      live p e = omega (arith, live_slot hs i old hi p e)

      gone :
          (p : ℕ)
          → refs p hs + points p (some s.next_name) - points p old
            ≡ refs p (set hs i (some s.next_name))
      gone p = omega (arith, refs-set p i hs old (some s.next_name) hi)
