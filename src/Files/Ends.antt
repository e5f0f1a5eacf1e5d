-- ===== src/Files/Ends.antt =====
-- The two assignments of pipe, and the run of its second loop.
use simplified_os_kernel.Prelude.{
  ℕ, ◌+◌, ◌≤◌, ◌<◌, ◌≡◌, ◌≢◌, refl, sym, ap, ap₂, ◌∙◌, subst, arith, Bool, true, false, Option,
  none, some, length, length-set, set, inl, inr, ne→==, some_inj, ◌>>=◌,
}
use simplified_os_kernel.Shared.Contents.{Always, none_absurd}
use simplified_os_kernel.Handles.{Handles, is_null, pointer, assign_new, seek, target}
use simplified_os_kernel.Handles.Laws.{Good, assign_new-Good}
use simplified_os_kernel.Handles.Seek.{seek_lem, pointer_self, pointer_ne}
use simplified_os_kernel.Handles.Contents.{assign_new-Always, target_live}
use simplified_os_kernel.Files.{Node, FileDescriptor, opens}
use simplified_os_kernel.Files.Table.{Sound}
use simplified_os_kernel.Files.Pipe.{pipe_end, fill_place, fill_places, to_place, seek_after}

-- The object with the name `n` has the content `v`.
abbrev IsAt : ℕ → FileDescriptor → ℕ → FileDescriptor → Type 0
IsAt n v p d = p ≡ n → d ≡ v

unused-IsAt :
    (h : Handles FileDescriptor) (v : FileDescriptor)
    → Good h
    → Always (IsAt h.store.next_name v) h.store
unused-IsAt h v g p c e same = none_absurd c (sym (g.1.fresh p (omega (arith, same))) ∙ e)

-- A descriptor with its two ends sounds as long as there is the pipe.
pub end-Sound : (n q p : ℕ) (a b : Bool) → q < n → Sound n p (pipe_end a b q)
unfolding pipe_end
end-Sound n q p a b h = inr (q, refl, h)

more-Sound :
    (v : Option Node) (offset : ℕ) (a b : Bool) (pipe : Option ℕ) (n m p : ℕ)
    → n ≤ m
    → Sound n p (record { vnode = v; offset = offset; readable = a; writable = b; pipe = pipe })
    → Sound m p (record { vnode = v; offset = offset; readable = a; writable = b; pipe = pipe })
more-Sound (some node) offset a b pipe n m p h s = s
more-Sound none offset a b pipe n m p h (inl e) = inl e
more-Sound none offset a b pipe n m p h (inr (q, e, small)) = inr (q, e, omega (arith, h, small))

-- The two assignments, of the ends of a pipe to two null pointers.
pub record Assigned (h : Handles FileDescriptor) (k l : ℕ) (v w : FileDescriptor)
    (h' : Handles FileDescriptor) : Type 0 where
  pub good : Good h'
  pub cells : h'.cells ≡ set (set h.cells k (pointer h' k)) l (pointer h' l)
  pub first : (n : ℕ) × (target h' (pointer h' k) ≡ some (n, v))
  pub second : (n : ℕ) × (target h' (pointer h' l) ≡ some (n, w))

target_is :
    (h : Handles FileDescriptor) (k n : ℕ) (v : FileDescriptor)
    → Good h
    → k < length h.cells
    → pointer h k ≡ some n
    → Always (IsAt n v) h.store
    → (n : ℕ) × (target h (pointer h k) ≡ some (n, v))
target_is h k n v g b e al =
    let (d, reached, same) = target_live (IsAt n v) h k n g b e al in
    (n, reached ∙ ap (λ c. some (n, c)) (same refl))

pub assign_two :
    (h : Handles FileDescriptor) (k l : ℕ) (v w : FileDescriptor)
    → Good h
    → k ≢ l
    → k < length h.cells
    → l < length h.cells
    → (h₁ h' : Handles FileDescriptor) × (assign_new v h k ≡ some h₁)
      × (h₁.cells ≡ set h.cells k (some h.store.next_name))
      × (assign_new w h₁ l ≡ some h')
      × Assigned h k l v w h'
assign_two h k l v w g apart small small' =
    let (h₁, e₁, g₁, c₁, o₁) = assign_new-Good v h k g small in
    let size₁ = ap length c₁ ∙ length-set h.cells k _ in
    let (h', e, g', c, o) = assign_new-Good w h₁ l g₁ (omega (arith, size₁, small')) in
    let at_l = pointer_self h₁ h' l (some h₁.store.next_name) c (omega (arith, size₁, small')) in
    let at_k =
      pointer_ne h₁ h' l k _ c (λ same. apart (sym same))
      ∙ pointer_self h h₁ k (some h.store.next_name) c₁ small in
    let stays =
      assign_new-Always (IsAt h.store.next_name v) w h₁ h' l e
        (λ same. none_absurd _ (sym (g₁.1.fresh h.store.next_name (omega (arith, same))) ∙ o₁))
        (assign_new-Always (IsAt h.store.next_name v) v h h₁ k e₁ (λ same. refl)
          (unused-IsAt h v g)) in
    let comes =
      assign_new-Always (IsAt h₁.store.next_name w) w h₁ h' l e (λ same. refl)
        (unused-IsAt h₁ w g₁) in
    let size = ap length c ∙ length-set h₁.cells l (some h₁.store.next_name) in
    (
      h₁,
      h',
      e₁,
      c₁,
      e,
      record {
        good = g';
        cells =
            c
            ∙ ap₂ (λ cs p. set cs l p) c₁ (sym at_l)
            ∙ ap (λ p. set (set h.cells k p) l (pointer h' l)) (sym at_k);
        first =
            target_is h' k h.store.next_name v g' (omega (arith, size, size₁, small)) at_k stays;
        second =
            target_is h' l h₁.store.next_name w g' (omega (arith, size, size₁, small')) at_l comes;
      },
    )

-- What a search that finds a place tells of it.
pub place_lem :
    (h : Handles FileDescriptor) (base i left k : ℕ)
    → seek h base i left ≡ some k
    → (i ≤ k)
      × (k < i + left)
      × (pointer h (base + k) ≡ none)
      × ((j : ℕ) → i ≤ j → j < k → is_null (pointer h (base + j)) ≡ false)
place_lem h base i left k found = elim (seek_lem h base i left) [
  | inl (e, none_free) ↦ none_absurd k (sym e ∙ found)
  | inr (k', e, from, to, free, lowest) ↦
      subst
        (λ k.
          (i ≤ k)
          × (k < i + left)
          × (pointer h (base + k) ≡ none)
          × ((j : ℕ) → i ≤ j → j < k → is_null (pointer h (base + j)) ≡ false))
        (some_inj k' k (sym e ∙ found)) (from, to, free, lowest)
]

pub none_lem :
    (h : Handles FileDescriptor) (base i left : ℕ)
    → seek h base i left ≡ none
    → (j : ℕ) → i ≤ j
    → j < i + left
    → is_null (pointer h (base + j)) ≡ false
none_lem h base i left nowhere = elim (seek_lem h base i left) [
  | inl (e, all) ↦ all
  | inr (k, e, _, _, _, _) ↦ none_absurd k (sym nowhere ∙ e)
]

-- The run of the second loop, when there are two free places.
pub fill_places_lem :
    (base q w m r m' : ℕ) (h h₁ h' : Handles FileDescriptor)
    → seek h base 0 10 ≡ some w
    → 10 ≡ w + 1 + m
    → seek h base (w + 1) m ≡ some r
    → w + 1 + m ≡ r + 1 + m'
    → assign_new (pipe_end false true q) h (base + w) ≡ some h₁
    → ((j : ℕ) → w + 1 ≤ j → pointer h₁ (base + j) ≡ pointer h (base + j))
    → assign_new (pipe_end true false q) h₁ (base + r) ≡ some h'
    → fill_places base q 0 10 20 h ≡ some (opens w r 0, h')
unfolding fill_place
fill_places_lem base q w m r m' h h₁ h' e parts e' parts' a same a' =
    to_place base q 0 10 20 w m h e (omega (arith, parts))
    ∙ ap (λ o. o >>= fill_places base q (w + 1) m w) a
    ∙ to_place base q (w + 1) m w r m' h₁ (seek_after h h₁ base (w + 1) m same ∙ e') parts'
    ∙ rw (ne→== w 20 (omega (arith, parts)), a') refl

pub grown : (n m p : ℕ) (d : FileDescriptor) → n ≤ m → Sound n p d → Sound m p d
grown n m p d h s = more-Sound d.vnode d.offset d.readable d.writable d.pipe n m p h s
