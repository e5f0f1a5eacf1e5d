-- ===== src/Handles/Contents.antt =====
-- A property of the contents of all objects stays through the assignments.
use simplified_os_kernel.Prelude.{
  ℕ, ◌<◌, ◌≡◌, refl, ap, ◌∙◌, false, Option, none, some, some_inj, length, subst, Bool-cases, ◌==◌,
  inl, inr, ==→eq,
}
use simplified_os_kernel.Shared.{Counted, Store, Shared, make}
use simplified_os_kernel.Shared.Counts.{object_live, refs-get}
use simplified_os_kernel.Shared.Contents.{
  Always, none_absurd, ref-Always, copy_assign-Always, move_assign-Always, make-Always,
}
use simplified_os_kernel.Handles.{
  Handles, pointer, stored, assign_new, assign_copy, clear, held, hold, named, target, set_content,
  recontent,
}
use simplified_os_kernel.Handles.Laws.{Good, cell_at}

target_object :
    {T : Type 0} (h : Handles T) (k : Shared) (p : ℕ) (d : Counted T)
    → k ≡ some p
    → h.store.object p ≡ some d
    → target h k ≡ some (p, d.content)
unfolding target
target_object h k p d e live = ap (target h) e ∙ ap (named p) live

module _ {T : Type 0} (P : ℕ → T → Type 0) where
  stored-Always :
      (h h' : Handles T) (k : ℕ) (r : Option (Shared × Store T))
      → ((p : Shared) (s : Store T) → r ≡ some (p, s) → Always P s)
      → stored h k r ≡ some h'
      → Always P h'.store
  unfolding stored
  stored-Always h h' k none al e = none_absurd h' e
  stored-Always h h' k (some (p, s)) al e =
      subst (λ (g : Handles T). Always P g.store) (some_inj _ h' e) (al p s refl)

  pub clear-Always :
      (h h' : Handles T) (k : ℕ) → clear h k ≡ some h' → Always P h.store → Always P h'.store
  unfolding clear
  clear-Always h h' k e al =
      stored-Always h h' k _ (λ p s e'. move_assign-Always P (pointer h k) none p h.store s e' al) e

  pub assign_copy-Always :
      (h h' : Handles T) (k j : ℕ)
      → assign_copy h k j ≡ some h'
      → Always P h.store
      → Always P h'.store
  unfolding assign_copy
  assign_copy-Always h h' k j e al =
      stored-Always h h' k _
        (λ p s e'. copy_assign-Always P (pointer h k) (pointer h j) p h.store s e' al) e

  pub assign_new-Always :
      (v : T) (h h' : Handles T) (k : ℕ)
      → assign_new v h k ≡ some h'
      → P h.store.next_name v
      → Always P h.store
      → Always P h'.store
  unfolding assign_new
  assign_new-Always v h h' k e ok al =
      stored-Always h h' k _
        (λ p s e'.
          move_assign-Always P (pointer h k) (make v h.store).0 p (make v h.store).1 s e'
            (make-Always P v h.store ok al))
        e

  held-Always :
      (h h' : Handles T) (p : Shared) (r : Option (Store T))
      → ((s : Store T) → r ≡ some s → Always P s)
      → held h p r ≡ some h'
      → Always P h'.store
  unfolding held
  held-Always h h' p none al e = none_absurd h' e
  held-Always h h' p (some s) al e =
      subst (λ (g : Handles T). Always P g.store) (some_inj _ h' e) (al s refl)

  pub hold-Always :
      (h h' : Handles T) (k : ℕ) → hold h k ≡ some h' → Always P h.store → Always P h'.store
  unfolding hold
  hold-Always h h' k e al =
      held-Always h h' (pointer h k) _ (λ s e'. ref-Always P (pointer h k) h.store s e' al) e

  recontent-Always :
      (p : ℕ) (v : T) (c : Option (Counted T)) (c' : Counted T)
      → recontent v c ≡ some c'
      → P p v
      → P p c'.content
  recontent-Always p v none c' e ok = none_absurd c' e
  recontent-Always p v (some c) c' e ok =
      subst (λ (d : Counted T). P p d.content) (some_inj _ c' e) ok

  pub set_content-Always :
      (h : Handles T) (p : ℕ) (v : T)
      → P p v
      → ((q : ℕ) (c : Counted T) → (p == q) ≡ false → h.store.object q ≡ some c → P q c.content)
      → Always P (set_content h p v).store
  unfolding set_content
  set_content-Always h p v ok al q c e = elim (Bool-cases (p == q)) [
    | inl y ↦
        subst (λ m. P m c.content) (==→eq p q y)
          (recontent-Always p v (h.store.object q) c (rw y at e) ok)
    | inr n ↦ al q c n (rw n at e)
  ]

  -- A pointer that is not null reaches an object, which has the property.
  pub target_live :
      (h : Handles T) (k p : ℕ)
      → Good h
      → k < length h.cells
      → pointer h k ≡ some p
      → Always P h.store
      → (v : T) × (target h (pointer h k) ≡ some (p, v)) × P p v
  target_live h k p (few, c) b e al =
      let (d, live, n) =
        object_live h.store _ p c (refs-get p k h.cells (cell_at h.cells k b ∙ ap some e)) in
      (d.content, target_object h (pointer h k) p d e live, al p d live)
