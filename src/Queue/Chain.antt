-- ===== src/Queue/Chain.antt =====
-- Chains of nodes, and what a write leaves of them.
use simplified_os_kernel.Prelude.{
  ℕ, ◌≡◌, ◌≢◌, refl, sym, ◌∙◌, subst, List, [], ◌∷◌, ◌++◌, All, eq→==, ne→==,
}
use simplified_os_kernel.Machine.{write}

-- The nodes from a pointer on are the list.
abbrev pub Chain : (ℕ → ℕ) → ℕ → List ℕ → Type 0
Chain next p [] = p ≡ 0
Chain next p (x ∷ xs) = (p ≡ x) × (x ≢ 0) × Chain next (next x) xs

-- The node is not in the list.
abbrev pub IsNew : ℕ → List ℕ → Type 0
IsNew t = All (λ x. x ≢ t)

abbrev pub IsDistinct : List ℕ → Type 0
IsDistinct [] = Unit
IsDistinct (x ∷ xs) = IsNew x xs × IsDistinct xs

pub write_self : (m : ℕ → ℕ) (a v : ℕ) → write m a v a ≡ v
write_self m a v = rw (eq→== a a refl) refl

pub write_other : (m : ℕ → ℕ) (a v x : ℕ) → x ≢ a → write m a v x ≡ m x
write_other m a v x h = rw (ne→== x a h) refl

pub write-Chain :
    (next : ℕ → ℕ) (a v p : ℕ) (xs : List ℕ)
    → IsNew a xs
    → Chain next p xs
    → Chain (write next a v) p xs
write-Chain next a v p [] new c = c
write-Chain next a v p (x ∷ xs) new c = (
  c.0,
  c.1,
  subst (λ n. Chain (write next a v) n xs) (sym (write_other next a v x new.0))
      (write-Chain next a v (next x) xs new.1 c.2),
)

-- A node behind the last one.
pub append-Chain :
    (next : ℕ → ℕ) (p last t : ℕ) (xs : List ℕ)
    → Chain next p (xs ++ (last ∷ []))
    → IsDistinct (xs ++ (last ∷ []))
    → IsNew t (xs ++ (last ∷ []))
    → t ≢ 0
    → Chain (write (write next t 0) last t) p (xs ++ (last ∷ t ∷ []))
append-Chain next p last t [] c d new some_t = (c.0, c.1, behind)
  where
    behind : Chain (write (write next t 0) last t) (write (write next t 0) last t last) (t ∷ [])
    behind = (
      write_self (write next t 0) last t,
      some_t,
      write_other (write next t 0) last t t (λ e. new.0 (sym e)) ∙ write_self next t 0,
    )
append-Chain next p last t (x ∷ xs) c d new some_t = (
  c.0,
  c.1,
  subst (λ n. Chain (write (write next t 0) last t) n (xs ++ (last ∷ t ∷ []))) (sym kept)
      (append-Chain next (next x) last t xs c.2 d.1 new.1 some_t),
)
  where
    apart : (ys : List ℕ) → IsNew x (ys ++ (last ∷ [])) → x ≢ last
    apart [] h = λ e. h.0 (sym e)
    apart (y ∷ ys) h = apart ys h.1

    kept : write (write next t 0) last t x ≡ next x
    kept = write_other (write next t 0) last t x (apart xs d.0) ∙ write_other next t 0 x new.0

pub append-IsDistinct :
    (t : ℕ) (xs : List ℕ) → IsDistinct xs → IsNew t xs → IsDistinct (xs ++ (t ∷ []))
append-IsDistinct t [] d new = (tt, tt)
append-IsDistinct t (x ∷ xs) d new = (longer xs d.0, append-IsDistinct t xs d.1 new.1)
  where
    longer : (ys : List ℕ) → IsNew x ys → IsNew x (ys ++ (t ∷ []))
    longer [] h = ((λ e. new.0 (sym e)), tt)
    longer (y ∷ ys) h = (h.0, longer ys h.1)
