-- ===== src/Join/Tests.antt =====
-- A parent with one child, before it exits.
use simplified_os_kernel.Prelude.{
  ℕ, zero, suc, ◌<◌, ◌≡◌, refl, arith, true, some, List, [], ◌∷◌, ◌++◌, get_elem?,
}
use simplified_os_kernel.Children.Stack.{Holds}
use simplified_os_kernel.Future.{new_future}
use simplified_os_kernel.Join.{Family, in_event_loop, join, exit_child}
use simplified_os_kernel.Join.Waits.{Joined, join_lem}

abbrev no_child : List ℕ
no_child = []

abbrev family : Family
family = record {
  children = record { size = 1; capacity = 1; children = some 7 ∷ [] };
  exit_future = λ child. new_future;
  interrupts = true;
}

family-Holds : Holds family.children (no_child ++ (7 ∷ []))
family-Holds = record {
  size = refl;
  array = refl;
  room = omega arith;
  some_room = omega arith;
  entries = λ i b. first i b;
}
  where
    first : (i : ℕ) → i < 1 → get_elem? family.children.children i ≡ some (get_elem? (7 ∷ []) i)
    first zero b = refl
    first (suc i) b = absurd (omega arith)

join_lem_example :
    ((join 1 family).0 ≡ in_event_loop)
    × ((s₁ : Family) × (exit_child 42 7 (join 1 family).1 ≡ some s₁) × Joined 42 1 7 no_child s₁)
    × ((s₂ : Family) × (exit_child 42 7 family ≡ some s₂)
        × ((join 1 s₂).0 ≡ in_event_loop)
        × Joined 42 1 7 no_child (join 1 s₂).1)
join_lem_example = join_lem 42 1 7 family no_child (omega arith) refl family-Holds
