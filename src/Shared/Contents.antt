-- ===== src/Shared/Contents.antt =====
-- Pointers that come and go leave the contents of the objects alone.
use simplified_os_kernel.Prelude.{
  ℕ, ◌≡◌, refl, sym, Option, none, some, some_inj, Option-cases, Bool-cases, ◌==◌, subst, ==→eq,
  inl, inr,
}
use simplified_os_kernel.Prelude.Words.{sub32}
use simplified_os_kernel.Shared.{
  Counted, Store, Shared, update, same, ref, ref_object, unref, unref_object, reference, moved,
  copy_assign, move_assign, make,
}

pub none_absurd : {A : Type 0} (a : A) {B : Type 0} → none ≡ some a → B
none_absurd a e = absurd cc

module _ {T : Type 0} (P : ℕ → T → Type 0) where
  -- The name and the content of every object have the property.
  abbrev pub Always : Store T → Type 0
  Always s = (p : ℕ) (c : Counted T) → s.object p ≡ some c → P p c.content

  update-Always :
      (s : Store T) (p : ℕ) (new : Option (Counted T))
      → Always s
      → ((c : Counted T) → new ≡ some c → P p c.content)
      → Always (update s p new)
  update-Always s p new al h q c e = elim (Bool-cases (q == p)) [
    | inl y ↦ subst (λ m. P m c.content) (sym (==→eq q p y)) (h c (rw y at e))
    | inr n ↦ al q c (rw n at e)
  ]

  recount :
      (p : ℕ) (c c' : Counted T) (n : ℕ)
      → some (record c { ref_count = n }) ≡ some c'
      → P p c.content
      → P p c'.content
  recount p c c' n e h = subst (λ (d : Counted T). P p d.content) (some_inj _ c' e) h

  ref_object-Always :
      (s s' : Store T) (p : ℕ) (c : Option (Counted T))
      → s.object p ≡ c
      → ref_object s p c ≡ some s'
      → Always s
      → Always s'
  unfolding ref_object
  ref_object-Always s s' p none live e al = none_absurd s' e
  ref_object-Always s s' p (some c) live e al =
      subst Always (some_inj _ s' e)
        (update-Always s p _ al λ c' e'. recount p c c' _ e' (al p c live))

  pub ref-Always : (h : Shared) (s s' : Store T) → ref h s ≡ some s' → Always s → Always s'
  unfolding ref
  ref-Always none s s' e al = subst Always (some_inj s s' e) al
  ref-Always (some p) s s' e al = ref_object-Always s s' p (s.object p) refl e al

  unref_object-Always :
      (s s' : Store T) (p : ℕ) (c : Option (Counted T))
      → s.object p ≡ c
      → unref_object s p c ≡ some s'
      → Always s
      → Always s'
  unfolding unref_object
  unref_object-Always s s' p none live e al = none_absurd s' e
  unref_object-Always s s' p (some c) live e al = subst Always (some_inj _ s' e) (
      update-Always s p _ al λ c' e'. elim (Bool-cases (sub32 c.ref_count 1 == 0)) [
        | inl last ↦ none_absurd c' (rw last at e')
        | inr more ↦ recount p c c' _ (rw more at e') (al p c live)
      ])

  pub unref-Always : (h : Shared) (s s' : Store T) → unref h s ≡ some s' → Always s → Always s'
  unfolding unref
  unref-Always none s s' e al = subst Always (some_inj s s' e) al
  unref-Always (some p) s s' e al = unref_object-Always s s' p (s.object p) refl e al

  moved-Always :
      (rhs p : Shared) (s s' : Store T) (u : Option (Store T))
      → ((s₁ : Store T) → u ≡ some s₁ → Always s₁)
      → moved rhs u ≡ some (p, s')
      → Always s'
  unfolding moved
  moved-Always rhs p s s' none h e = none_absurd (p, s') e
  moved-Always rhs p s s' (some s₁) h e =
      subst (λ (r : Shared × Store T). Always r.1) (some_inj _ (p, s') e) (h s₁ refl)

  pub move_assign-Always :
      (lhs rhs p : Shared) (s s' : Store T)
      → move_assign lhs rhs s ≡ some (p, s')
      → Always s
      → Always s'
  unfolding move_assign
  move_assign-Always lhs rhs p s s' e al = elim (Bool-cases (same lhs rhs)) [
    | inl y ↦ subst (λ (r : Shared × Store T). Always r.1) (some_inj _ (p, s') (rw y at e)) al
    | inr n ↦
        moved-Always rhs p s s' (unref lhs s) (λ s₁ e₁. unref-Always lhs s s₁ e₁ al) (rw n at e)
  ]

  reference-Always :
      (rhs p : Shared) (s s' : Store T) (u : Option (Store T))
      → ((s₁ : Store T) → u ≡ some s₁ → Always s₁)
      → reference rhs u ≡ some (p, s')
      → Always s'
  unfolding reference
  reference-Always rhs p s s' none h e = none_absurd (p, s') e
  reference-Always rhs p s s' (some s₁) h e = elim (Option-cases (ref rhs s₁)) [
    | inl gone ↦ none_absurd (p, s') (rw (reference, gone) at e)
    | inr (s₂, made) ↦
        subst (λ (r : Shared × Store T). Always r.1)
          (some_inj _ (p, s') (rw (reference, made) at e)) (ref-Always rhs s₁ s₂ made (h s₁ refl))
  ]

  pub copy_assign-Always :
      (lhs rhs p : Shared) (s s' : Store T)
      → copy_assign lhs rhs s ≡ some (p, s')
      → Always s
      → Always s'
  unfolding copy_assign
  copy_assign-Always lhs rhs p s s' e al = elim (Bool-cases (same lhs rhs)) [
    | inl y ↦ subst (λ (r : Shared × Store T). Always r.1) (some_inj _ (p, s') (rw y at e)) al
    | inr n ↦
        reference-Always rhs p s s' (unref lhs s) (λ s₁ e₁. unref-Always lhs s s₁ e₁ al) (rw n at e)
  ]

  pub make-Always : (v : T) (s : Store T) → P s.next_name v → Always s → Always (make v s).1
  unfolding make
  make-Always v s h al =
      update-Always s s.next_name (some (record { content = v; ref_count = 1 })) al
        λ c e. subst (λ (d : Counted T). P s.next_name d.content) (some_inj _ c e) h
