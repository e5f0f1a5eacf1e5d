-- ===== src/Vme/Cover.antt =====
-- `remove` and `contains_range`, told by the addresses that the regions hold.
use simplified_os_kernel.Prelude.{
  ℕ, ◌≤◌, ◌≡◌, ◌↔◌, refl, ◌⊎◌, inl, inr, Bool, true, false, ◌&&◌, not, none, some, [], ◌∷◌, arith,
  ltb, leb, Bool-cases,
}
use simplified_os_kernel.Vme.{Vme, VmeQueue, remove, contains_range}
use simplified_os_kernel.Vme.Order.{Sorted, covers, Sorted-mono, covers_below}

-- An address lies in the region.
abbrev pub holds : Vme → ℕ → Bool
holds v a = leb v.start a && ltb a v.end

-- What `remove` leaves, and the region that it takes out.
pub record Removed (lo addr : ℕ) (q : VmeQueue) (v : Vme) (rest : VmeQueue) : Type 0 where
  pub held : holds v addr ≡ true
  pub sorted : Sorted lo rest
  pub contents : (x : ℕ) → covers rest x ≡ (covers q x && not (holds v x))

Removed-cons :
    (lo addr : ℕ) (it : Vme) (q : VmeQueue) (v : Vme) (rest : VmeQueue)
    → Sorted lo (it ∷ q)
    → Removed it.end addr q v rest
    → it.end ≤ v.start
    → Removed lo addr (it ∷ q) v (it ∷ rest)
Removed-cons lo addr it q v rest o r apart = record {
  held = r.held;
  sorted = (o.0, o.1, o.2, o.3, r.sorted);
  contents = λ x. ground (arith, r.contents x);
}

-- On a queue in order, remove either finds no region that holds the address and changes nothing, or
-- returns a region that holds it, after which the queue is in order and covers just the addresses
-- that it covered outside that region.
pub remove_lem :
    (lo addr : ℕ) (q : VmeQueue)
    → Sorted lo q
    → ((covers q addr ≡ false) × (remove q addr ≡ (none, q)))
      ⊎ ((v : Vme) × ((remove q addr).0 ≡ some v)
          × Removed lo addr q v (remove q addr).1
          × (lo ≤ v.start))
unfolding remove
remove_lem lo addr [] o = inl (refl, refl)
remove_lem lo addr (it ∷ q) o = elim (Bool-cases (ltb addr it.end && leb it.start addr)) [
  | inl here ↦ rw here (
      inr (
        it,
        refl,
        record {
          held = ground arith;
          sorted = Sorted-mono it.end lo q (omega arith) o.4;
          contents = λ x. ground (arith, covers_below it.end x q o.4);
        },
        o.0,
      ))
  | inr there ↦ rw there (elim (remove_lem it.end addr q o.4) [
    | inl (out, e) ↦ inl (ground arith, ground arith)
    | inr (v, found, r, apart) ↦
        inr (v, found, Removed-cons lo addr it q v _ o r apart, omega arith)
  ])
]

contains_range_sound :
    (lo s e x : ℕ) (q : VmeQueue)
    → Sorted lo q
    → contains_range q s e ≡ true
    → s ≤ x
    → x ≤ e
    → covers q x ≡ true
unfolding contains_range
contains_range_sound lo s e x [] o h p q' = cc
contains_range_sound lo s e x (v ∷ q) o h p q' =
    ground
      (arith, contains_range_sound v.end v.end e x q o.4, contains_range_sound v.end s e x q o.4)

contains_range_complete :
    (lo s e : ℕ) (q : VmeQueue)
    → Sorted lo q
    → s ≤ e
    → ((x : ℕ) → s ≤ x → x ≤ e → covers q x ≡ true)
    → contains_range q s e ≡ true
unfolding contains_range
contains_range_complete lo s e [] o p all = all s (omega arith) p
contains_range_complete lo s e (v ∷ q) o p all = elim (Bool-cases (leb v.start s && ltb s v.end)) [
  | inl inside ↦ rw inside (elim (Bool-cases (ltb e v.end)) [
    | inl whole ↦ rw whole refl
    | inr more ↦ rw more (
        contains_range_complete v.end v.end e q o.4 (ground arith) (λ x a b. ground (arith, all x)))
  ])
  | inr outside ↦ rw outside (
      contains_range_complete v.end s e q o.4 p
        (λ x a b. ground (arith, all x, all s, covers_below v.end s q o.4)))
]

-- On a queue in order, for s at most e, contains_range holds exactly when every address from s to e,
-- both included, is covered by the queue: regions that follow on one another without a gap are
-- joined.
pub contains_range_iff :
    (lo s e : ℕ) (q : VmeQueue)
    → Sorted lo q
    → s ≤ e
    → (contains_range q s e ≡ true) ↔ ((x : ℕ) → s ≤ x → x ≤ e → covers q x ≡ true)
contains_range_iff lo s e q o p =
    (λ h x a b. contains_range_sound lo s e x q o h a b, contains_range_complete lo s e q o p)
