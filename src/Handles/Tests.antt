-- ===== src/Handles/Tests.antt =====
-- Two arrays of two pointers, the child's after the parent's.
use simplified_os_kernel.Prelude.{
  ℕ, ◌≡◌, refl, ◌>>=◌, Option, List, none, some, [], ◌∷◌, if◌then◌else◌, ◌==◌,
}
use simplified_os_kernel.Handles.{Handles, inherit, assign_copy, stored}
use simplified_os_kernel.Shared.{copy_assign}

abbrev parent_and_child : Handles ℕ
parent_and_child = record {
  store = record {
    next_name = 1;
    object = λ p. if p == 0 then some (record { content = 9; ref_count = 1 }) else none;
  };
  cells = none ∷ some 0 ∷ none ∷ none ∷ [];
}

cells_of : Handles ℕ → Option (List (Option ℕ))
cells_of h = some h.cells

-- The child gets the parent's pointers.
inherited :
    inherit 0 2 0 2 parent_and_child >>= cells_of ≡ some (none ∷ some 0 ∷ none ∷ some 0 ∷ [])
unfolding cells_of inherit assign_copy stored copy_assign
inherited = refl
