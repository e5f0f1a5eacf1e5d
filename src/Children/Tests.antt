-- ===== src/Children/Tests.antt =====
-- A first child, and a second one, for which the array of one place grows.
use simplified_os_kernel.Prelude.{
  ℕ, zero, suc, ◌<◌, get_elem?, ◌++◌, ◌≡◌, refl, arith, some, [], ◌∷◌,
}
use simplified_os_kernel.Children.{
  Children, new_children, no_children, copy_children, resize, push, add_child, peek_child,
  remove_child,
}
use simplified_os_kernel.Children.Stack.{Holds, add_child_lem}

grown : (add_child 8 (add_child 7 no_children)).children ≡ some 7 ∷ some 8 ∷ []
unfolding add_child no_children push resize copy_children new_children
grown = refl

abbrev one_child : Children
one_child = record { size = 1; capacity = 1; children = some 7 ∷ [] }

one_child-Holds : Holds one_child (7 ∷ [])
one_child-Holds = record {
  size = refl;
  array = refl;
  room = omega arith;
  some_room = omega arith;
  entries = λ i b. first i b;
}
  where
    first : (i : ℕ) → i < 1 → get_elem? one_child.children i ≡ some (get_elem? (7 ∷ []) i)
    first zero b = refl
    first (suc i) b = absurd (omega arith)

add_child_lem_example :
    Holds (add_child 8 one_child) ((7 ∷ []) ++ (8 ∷ []))
    × (peek_child (add_child 8 one_child) ≡ some 8)
    × ((remove_child (add_child 8 one_child)).0 ≡ some 8)
    × Holds (remove_child (add_child 8 one_child)).1 (7 ∷ [])
add_child_lem_example = add_child_lem 8 one_child (7 ∷ []) one_child-Holds (omega arith)
