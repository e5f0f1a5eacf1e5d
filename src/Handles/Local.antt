-- ===== src/Handles/Local.antt =====
-- A system call's local copy of a pointer, and the change of the object through it.
use simplified_os_kernel.Prelude.{
  ℕ, ◌+◌, ◌≤◌, ◌<◌, ◌≡◌, refl, ap, ◌∙◌, arith, ◌==◌, Option, none, some, [], ◌∷◌, ◌++◌, length,
  length-append, length-set, set-last, get_elem?, set, eq→==, if◌then◌else◌,
}
use simplified_os_kernel.Prelude.Words.{u32_mod}
use simplified_os_kernel.Shared.{Counted, Shared}
use simplified_os_kernel.Shared.Contents.{Always}
use simplified_os_kernel.Handles.{Handles, or_null, pointer, hold, target, set_content}
use simplified_os_kernel.Handles.Laws.{Good, hold-Good, last_cell}
use simplified_os_kernel.Handles.Contents.{hold-Always, set_content-Always, target_live}

module _ {T : Type 0} where
  abbrev pub content_of : Option (Counted T) → Option T
  content_of none = none
  content_of (some c) = some c.content

  -- The object with a name.
  abbrev pub look : Handles T → ℕ → Option T
  look h q = content_of (h.store.object q)

  pub same_cells : (h : Handles T) (p : ℕ) (t : T) → (set_content h p t).cells ≡ h.cells
  unfolding set_content
  same_cells h p t = refl

  -- The pointers are still there after the end of the local.
  pub local_end :
      (h l h' : Handles T) (p : ℕ) (t : T)
      → length l.cells ≡ length h.cells + 1
      → h'.cells ≡ set (set_content l p t).cells (length h.cells) none
      → length h.cells ≤ length h'.cells
  local_end h l h' p t longer w = omega (
    arith,
    longer,
    ap length (same_cells l p t),
    ap length w,
    length-set (set_content l p t).cells (length h.cells) none,
  )

  -- After the end of the local its cell is null, and all others are as they were.
  pub local_cells :
      (h l h' : Handles T) (u : Shared)
      → l.cells ≡ h.cells ++ (u ∷ [])
      → h'.cells ≡ set l.cells (length h.cells) none
      → h'.cells ≡ h.cells ++ (none ∷ [])
  local_cells h l h' u added w =
      w ∙ ap (λ cs. set cs (length h.cells) none) added ∙ set-last h.cells u none

module _ {T : Type 0} (Q : ℕ → T → Type 0) where
  abbrev pub Was : Handles T → ℕ → T → Type 0
  Was h q t = Q q t × (look h q ≡ some t)

  -- Object `p` has become `s`; the others are as they were.
  abbrev pub Becomes : ℕ → T → Handles T → ℕ → T → Type 0
  Becomes p s h q t = Q q t × ((if p == q then some s else look h q) ≡ some t)

  -- The handles `l` with a copy of the pointer in the cell `k` in their last cell.
  pub record Local (h : Handles T) (k p : ℕ) : Type 0 where
    pub l : Handles T
    pub s : T
    pub held : hold h k ≡ some l
    pub good : Good l
    pub same : Always (Was h) l.store
    pub added : l.cells ≡ h.cells ++ (pointer h k ∷ [])
    pub longer : length l.cells ≡ length h.cells + 1
    pub reached : target l (pointer l (length h.cells)) ≡ some (p, s)
    pub was : Was h p s

  pub copied_pointer :
      (h : Handles T) (k p : ℕ)
      → Good h
      → Always Q h.store
      → k < length h.cells
      → length h.cells + 3 < u32_mod
      → pointer h k ≡ some p
      → Local h k p
  copied_pointer h k p good al room few pointed =
      let (l, e, g, w) = hold-Good h k good room few in
      let kept = hold-Always (Was h) _ l _ e (λ q c e'. (al q c e', ap content_of e')) in
      let n = ap length w ∙ length-append h.cells _ in
      let (s, t, q) =
        target_live (Was h) l (length h.cells) p g (omega (arith, n)) (at_end l w) kept in
      record {
        l = l;
        s = s;
        held = e;
        good = g;
        same = kept;
        added = w;
        longer = n;
        reached = t;
        was = q;
      }
    where
      at_end :
          (l : Handles T)
          → l.cells ≡ h.cells ++ (pointer h k ∷ [])
          → pointer l (length h.cells) ≡ some p
      at_end l w =
          ap (λ cs. or_null (get_elem? cs (length h.cells))) w
          ∙ ap or_null (last_cell h.cells _)
          ∙ pointed

  pub changed :
      (h : Handles T) (k p : ℕ) (x : Local h k p) (t : T)
      → Q p t
      → Always (Becomes p t h) (set_content x.l p t).store
  changed h k p x t ok =
      set_content-Always (Becomes p t h) x.l p t (ok, rw (eq→== p p refl) refl)
        λ q c n e. ((x.same q c e).0, rw n (x.same q c e).1)
