-- ===== src/Children/Stack.antt =====
-- The array refines a stack, at every capacity.
use simplified_os_kernel.Prelude.{
  ℕ, zero, suc, ◌+◌, ◌*◌, ◌%◌, ◌^◌, ◌≤◌, ◌<◌, ◌≡◌, refl, sym, ap, ◌∙◌, arith, true, Option, some,
  List, [], ◌∷◌, ◌++◌, length, length-append, length-set, get_elem?, set, get_elem?-set_self,
  get_elem?-set_ne, ◌==◌, inl, inr, Bool-cases, ==→eq, ==→ne, ne→==, subst,
}
use simplified_os_kernel.Prelude.Words.{u32_mod, sub32}
use native.Mathlib.Nat.{add-zero, zero-add}
use simplified_os_kernel.Children.{
  Children, new_children, copy_children, resize, push, add_child, at_place, peek_child,
  remove_child,
}

-- The children in the array are `xs`, the oldest first.
pub record Holds (s : Children) (xs : List ℕ) : Type 0 where
  pub size : s.size ≡ length xs
  pub array : length s.children ≡ s.capacity
  pub room : s.size ≤ s.capacity
  pub some_room : 0 < s.capacity
  pub entries : (i : ℕ) → i < length xs → get_elem? s.children i ≡ some (get_elem? xs i)

length-new_children : (n : ℕ) → length (new_children n) ≡ n
unfolding new_children
length-new_children zero = refl
length-new_children (suc n) = ap suc (length-new_children n)

length-copy_children :
    (from : List (Option ℕ)) (i : ℕ) (to : List (Option ℕ))
    → length (copy_children from i to) ≡ length to
unfolding copy_children
length-copy_children [] i to = refl
length-copy_children (c ∷ from) i to =
    length-copy_children from (suc i) (set to i c) ∙ length-set to i c

-- Places below the loop's are kept.
copy_children_below :
    (from : List (Option ℕ)) (i : ℕ) (to : List (Option ℕ)) (j : ℕ)
    → j < i
    → get_elem? (copy_children from i to) j ≡ get_elem? to j
unfolding copy_children
copy_children_below [] i to j h = refl
copy_children_below (c ∷ from) i to j h =
    copy_children_below from (suc i) (set to i c) j (omega arith)
    ∙ get_elem?-set_ne to i j c (λ e. omega (arith, e, h))

copy_children_lem :
    (from : List (Option ℕ)) (i : ℕ) (to : List (Option ℕ)) (k : ℕ)
    → k < length from
    → i + length from ≤ length to
    → get_elem? (copy_children from i to) (i + k) ≡ get_elem? from k
unfolding copy_children
copy_children_lem [] i to k h r = absurd (omega arith)
copy_children_lem (c ∷ from) i to zero h r =
    ap (get_elem? (copy_children from (suc i) (set to i c))) (add-zero i)
    ∙ copy_children_below from (suc i) (set to i c) i (omega arith)
    ∙ get_elem?-set_self to i c (omega arith)
copy_children_lem (c ∷ from) i to (suc k) h r =
    ap (get_elem? (copy_children from (suc i) (set to i c))) (shift i k)
    ∙ copy_children_lem from (suc i) (set to i c) k (omega arith) (omega (arith, length-set to i c))
  where
    shift : (i k : ℕ) → i + suc k ≡ suc i + k
    shift i k = omega arith

resize-Holds :
    (s : Children) (xs : List ℕ) → Holds s xs → s.capacity * 2 < u32_mod → Holds (resize s) xs
unfolding resize
resize-Holds s xs h few = record {
  size = h.size;
  array = length-copy_children s.children 0 _ ∙ length-new_children _;
  room = omega (arith, h.room, double);
  some_room = omega (arith, h.some_room, double);
  entries = λ i b.
      ap (get_elem? (copy_children s.children 0 (new_children (s.capacity * 2 % u32_mod))))
        (sym (zero-add i))
      ∙ copy_children_lem s.children 0 _ i (omega (arith, h.array, h.room, h.size, b))
          (omega (arith, length-new_children (s.capacity * 2 % u32_mod), double, h.array))
      ∙ h.entries i b;
}
  where
    double : s.capacity * 2 % u32_mod ≡ s.capacity * 2
    double = omega (arith, few)

get_elem?-last : (xs : List ℕ) (x : ℕ) → get_elem? (xs ++ (x ∷ [])) (length xs) ≡ some x
get_elem?-last [] x = refl
get_elem?-last (y ∷ xs) x = get_elem?-last xs x

get_elem?-front :
    (xs : List ℕ) (x i : ℕ) → i < length xs → get_elem? (xs ++ (x ∷ [])) i ≡ get_elem? xs i
get_elem?-front [] x i h = absurd (omega arith)
get_elem?-front (y ∷ xs) x zero h = refl
get_elem?-front (y ∷ xs) x (suc i) h = get_elem?-front xs x i (omega arith)

push-Holds :
    (child : ℕ) (s : Children) (xs : List ℕ)
    → Holds s xs
    → s.size < s.capacity
    → s.size + 1 < u32_mod
    → Holds (push child s) (xs ++ (child ∷ []))
unfolding push
push-Holds child s xs h free few = record {
  size = omega (arith, h.size, few, length-append xs (child ∷ []));
  array = length-set s.children s.size (some child) ∙ h.array;
  room = omega (arith, free, few);
  some_room = h.some_room;
  entries = λ i b. elim (Bool-cases (s.size == i)) [
    | inl top ↦
        subst
          (λ m.
            get_elem? (set s.children s.size (some child)) m
            ≡ some (get_elem? (xs ++ (child ∷ [])) m))
          (==→eq s.size i top) at_top
    | inr below ↦
        get_elem?-set_ne s.children s.size i (some child) (==→ne s.size i below)
        ∙ h.entries i
            (omega (arith, b, length-append xs (child ∷ []), ==→ne s.size i below, h.size))
        ∙ ap some (
            sym (
              get_elem?-front xs child i
                (omega (arith, b, length-append xs (child ∷ []), ==→ne s.size i below, h.size))))
  ];
}
  where
    at_top :
        get_elem? (set s.children s.size (some child)) s.size
        ≡ some (get_elem? (xs ++ (child ∷ [])) s.size)
    at_top =
        get_elem?-set_self s.children s.size (some child) (omega (arith, free, h.array))
        ∙ ap some (sym (ap (get_elem? (xs ++ (child ∷ []))) h.size ∙ get_elem?-last xs child))

-- What the top of a stack that is not empty is, and what is left without it.
top_entry :
    (child : ℕ) (s : Children) (xs : List ℕ)
    → Holds s (xs ++ (child ∷ []))
    → s.size < u32_mod
    → at_place (get_elem? s.children (sub32 s.size 1)) ≡ some child
top_entry child s xs h few =
    ap (λ k. at_place (get_elem? s.children k)) last
    ∙ ap at_place (h.entries (length xs) (omega (arith, length-append xs (child ∷ []))))
    ∙ get_elem?-last xs child
  where
    last : sub32 s.size 1 ≡ length xs
    last = omega (arith, few, h.size, length-append xs (child ∷ []))

pub pop_lem :
    (child : ℕ) (s : Children) (xs : List ℕ)
    → Holds s (xs ++ (child ∷ []))
    → s.size < u32_mod
    → (peek_child s ≡ some child) × ((remove_child s).0 ≡ some child) × Holds (remove_child s).1 xs
unfolding peek_child remove_child
pop_lem child s xs h few = (
  rw (ne→== s.size 0 (omega (arith, n))) (top_entry child s xs h few),
  top_entry child s xs h few,
  record {
    size = omega (arith, n, few);
    array = h.array;
    room = omega (arith, n, few, h.room);
    some_room = h.some_room;
    entries = λ i b.
        h.entries i (omega (arith, b, length-append xs (child ∷ [])))
        ∙ ap some (get_elem?-front xs child i b);
  },
)
  where
    n : s.size ≡ length xs + 1
    n = h.size ∙ length-append xs (child ∷ [])

added_child :
    (child : ℕ) (s : Children) (xs : List ℕ)
    → Holds s xs
    → s.capacity < 2 ^ 30
    → Holds (add_child child s) (xs ++ (child ∷ []))
unfolding add_child resize
added_child child s xs h few = elim (Bool-cases (s.size == s.capacity)) [
  | inl full ↦ rw full (
      push-Holds child (resize s) xs (resize-Holds s xs h (omega arith)) (roomy full)
        (omega (arith, h.room)))
  | inr free ↦ rw free (
      push-Holds child s xs h (omega (arith, h.room, ==→ne s.size s.capacity free))
        (omega (arith, h.room)))
]
  where
    roomy : (s.size == s.capacity) ≡ true → (resize s).size < (resize s).capacity
    roomy full = omega (arith, few, ==→eq s.size s.capacity full, h.some_room)

-- On an array that holds the children xs, with a capacity below 2^30: add_child leaves an array that
-- holds xs and the child after them, whether or not it resizes; peek_child then gives the child; and
-- remove_child gives it and leaves an array that holds xs.
pub add_child_lem :
    (child : ℕ) (s : Children) (xs : List ℕ)
    → Holds s xs
    → s.capacity < 2 ^ 30
    → Holds (add_child child s) (xs ++ (child ∷ []))
      × (peek_child (add_child child s) ≡ some child)
      × ((remove_child (add_child child s)).0 ≡ some child)
      × Holds (remove_child (add_child child s)).1 xs
add_child_lem child s xs h few =
    let added = added_child child s xs h few in
    let (peeked, removed, left) =
      pop_lem child (add_child child s) xs added
        (omega (arith, added.size, length-append xs (child ∷ []), h.size, h.room)) in
    (added, peeked, removed, left)
