-- ===== src/Queue/Fifo.antt =====
-- The pointers refine a list: first in, first out.
use simplified_os_kernel.Prelude.{
  ℕ, ◌≡◌, ◌≢◌, refl, sym, ap, ◌∙◌, subst, List, [], ◌∷◌, ◌++◌, eq→==, ne→==, ◌⊎◌, inl, inr,
  append_assoc,
}
use simplified_os_kernel.Machine.{write}
use simplified_os_kernel.Queue.{Queue, add, remove, remove_all}
use simplified_os_kernel.Queue.Chain.{
  Chain, IsNew, IsDistinct, write_self, append-Chain, append-IsDistinct,
}

-- `last` is the last node, if there is one.
abbrev pub EndsWith : ℕ → List ℕ → Type 0
EndsWith last xs = (xs ≡ []) ⊎ ((ys : List ℕ) × (xs ≡ ys ++ (last ∷ [])))

-- The nodes of the queue are `xs`, the oldest first.
pub record Holds (q : Queue) (xs : List ℕ) : Type 0 where
  pub chain : Chain q.next q.first xs
  pub distinct : IsDistinct xs
  pub end : EndsWith q.last xs

add_empty : (t : ℕ) (q : Queue) → t ≢ 0 → Holds q [] → Holds (add t q) (t ∷ [])
unfolding add
add_empty t q some_t h = rw (eq→== q.first 0 h.chain) (record {
  chain = (refl, some_t, write_self q.next t 0);
  distinct = (tt, tt);
  end = inr ([], refl);
})

first_some : (q : Queue) (x : ℕ) (xs : List ℕ) → Chain q.next q.first (x ∷ xs) → q.first ≢ 0
first_some q x xs c e = c.1 (sym c.0 ∙ e)

add_behind :
    (t : ℕ) (q : Queue) (xs : List ℕ)
    → t ≢ 0
    → q.first ≢ 0
    → IsNew t (xs ++ (q.last ∷ []))
    → IsDistinct (xs ++ (q.last ∷ []))
    → Chain q.next q.first (xs ++ (q.last ∷ []))
    → Holds (add t q) ((xs ++ (q.last ∷ [])) ++ (t ∷ []))
unfolding add
add_behind t q xs some_t some_first new d c = rw (ne→== q.first 0 some_first) (record {
  chain =
      subst (Chain (write (write q.next t 0) q.last t) q.first)
        (sym (append_assoc xs (q.last ∷ []) (t ∷ [])))
        (append-Chain q.next q.first q.last t xs c d new some_t);
  distinct = append-IsDistinct t (xs ++ (q.last ∷ [])) d new;
  end = inr (xs ++ (q.last ∷ []), refl);
})

add_lem :
    (t : ℕ) (q : Queue) (xs : List ℕ)
    → t ≢ 0
    → IsNew t xs
    → Holds q xs
    → Holds (add t q) (xs ++ (t ∷ []))
add_lem t q [] some_t new h = add_empty t q some_t h
add_lem t q (x ∷ xs) some_t new h = elim (h.end) [
  | inl none ↦ absurd (cc none)
  | inr (ys, parts) ↦
      subst (λ l. Holds (add t q) (l ++ (t ∷ []))) (sym parts)
        (add_behind t q ys some_t (first_some q x xs h.chain) (subst (IsNew t) parts new)
          (subst IsDistinct parts h.distinct) (subst (Chain q.next q.first) parts h.chain))
]

remove_empty : (q : Queue) → Holds q [] → remove q ≡ (0, q)
unfolding remove
remove_empty q h = rw (eq→== q.first 0 h.chain) refl

pub tail_of : List ℕ → List ℕ
tail_of [] = []
tail_of (x ∷ xs) = xs

nil_cons : (y : ℕ) (xs : List ℕ) → y ∷ xs ≡ [] → ⊥
nil_cons y xs e = cc e

-- What is left when the first node goes.
behind : (x last y : ℕ) (xs : List ℕ) → EndsWith last (x ∷ y ∷ xs) → EndsWith last (y ∷ xs)
unfolding tail_of
behind x last y xs (inl none) = absurd (cc none)
behind x last y xs (inr ([], parts)) = absurd (nil_cons y xs (ap tail_of parts))
behind x last y xs (inr (z ∷ ys, parts)) = inr (ys, ap tail_of parts)

remove_lem :
    (q : Queue) (x : ℕ) (xs : List ℕ)
    → Holds q (x ∷ xs)
    → ((remove q).0 ≡ x) × Holds (remove q).1 xs
unfolding remove
remove_lem q x [] h =
    rw (ne→== q.first 0 (first_some q x [] h.chain))
      (h.chain.0, record { chain = ap q.next h.chain.0 ∙ h.chain.2; distinct = tt; end = inl refl })
remove_lem q x (y ∷ xs) h =
    rw (ne→== q.first 0 (first_some q x (y ∷ xs) h.chain), ne→== (q.next q.first) 0 more)
      (
        h.chain.0,
        record { chain = rest; distinct = h.distinct.1; end = behind x q.last y xs h.end },
      )
  where
    rest : Chain q.next (q.next q.first) (y ∷ xs)
    rest = subst (λ p. Chain q.next (q.next p) (y ∷ xs)) (sym h.chain.0) h.chain.2

    more : q.next q.first ≢ 0
    more e = rest.1 (sym rest.0 ∙ e)

abbrev pub first_or : ℕ → List ℕ → ℕ
first_or t [] = t
first_or t (x ∷ xs) = x

remove_added :
    (t : ℕ) (q : Queue) (xs : List ℕ)
    → Holds q (xs ++ (t ∷ []))
    → ((remove q).0 ≡ first_or t xs) × Holds (remove q).1 (tail_of (xs ++ (t ∷ [])))
unfolding tail_of
remove_added t q [] h = remove_lem q t [] h
remove_added t q (x ∷ xs) h = remove_lem q x (xs ++ (t ∷ [])) h

-- On a queue whose pointers hold the distinct nodes xs, for another node that is not null: add makes
-- them hold xs and the node behind; remove then gives the first of these and leaves the others;
-- remove_all gives the first node of the chain xs and leaves an empty queue, of which remove gives
-- null and changes nothing.
pub queue_lem :
    (t : ℕ) (q : Queue) (xs : List ℕ)
    → t ≢ 0
    → IsNew t xs
    → Holds q xs
    → Holds (add t q) (xs ++ (t ∷ []))
      × ((remove (add t q)).0 ≡ first_or t xs)
      × Holds (remove (add t q)).1 (tail_of (xs ++ (t ∷ [])))
      × Chain q.next (remove_all q).0 xs
      × Holds (remove_all q).1 []
      × (remove (remove_all q).1 ≡ (0, (remove_all q).1))
unfolding remove_all
queue_lem t q xs some_t new h =
    let added = add_lem t q xs some_t new h in
    let (x, rest) = remove_added t (add t q) xs added in
    (added, x, rest, h.chain, emptied, remove_empty (remove_all q).1 emptied)
  where
    emptied : Holds (record q { first = 0; last = 0 }) []
    emptied = record { chain = refl; distinct = tt; end = inl refl }
