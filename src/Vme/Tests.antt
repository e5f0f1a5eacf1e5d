-- ===== src/Vme/Tests.antt =====
-- Runs of the region queue, and its theorems at a process with a text region and a stack.
use simplified_os_kernel.Prelude.{
  ℕ, ◌+◌, ◌≤◌, ◌≡◌, ◌↔◌, refl, ◌⊎◌, true, false, none, some, [], ◌∷◌, arith,
}
use simplified_os_kernel.Prelude.Words.{user_lo, user_hi}
use simplified_os_kernel.Vme.{
  Vme, VmeQueue, new_vme, intersects_queue, add_vme, remove, contains_range, deep_copy,
}
use simplified_os_kernel.Vme.Order.{Sorted, Apart, covers, intersects_queue_iff}
use simplified_os_kernel.Vme.Fit.{Added, Linked, add_vme-first_fit, add_vme-outcome}
use simplified_os_kernel.Vme.Cover.{Removed, remove_lem, contains_range_iff}
use simplified_os_kernel.Vme.Copy.{deep_copy_lem}

abbrev text : Vme
text = record { start = 0x8000_0000; end = 0x8000_2000; size = 0x2000 }

abbrev stack : Vme
stack = record { start = 0xEFF0_0000; end = 0xF000_0000; size = 0x10_0000 }

abbrev regions : VmeQueue
regions = text ∷ stack ∷ []

regions-Sorted : Sorted user_lo regions
regions-Sorted = omega arith

first_fit_runs : (add_vme regions (new_vme 0 0x1000)).0 ≡ 0x8000_2000
unfolding add_vme new_vme
first_fit_runs = refl

-- A region that ends where the stack starts is refused.
touching : intersects_queue regions 0xEFEF_F000 0x1000 ≡ true
unfolding intersects_queue
touching = refl

joined : contains_range (text ∷ new_vme 0x8000_2000 0x1000 ∷ []) 0x8000_1000 0x8000_2FFF ≡ true
unfolding contains_range new_vme
joined = refl

removed_runs : remove regions 0x8000_1234 ≡ (some text, stack ∷ [])
unfolding remove
removed_runs = refl

intersects_queue_iff_example :
    (intersects_queue regions 0x8000_2000 0x1000 ≡ false) ↔ Apart 0x8000_2000 0x1000 regions
intersects_queue_iff_example = intersects_queue_iff 0x8000_2000 0x1000 regions (omega arith)

add_vme-first_fit_example :
    (a : ℕ) × Added user_lo a 0x1000 regions (add_vme regions (new_vme 0 0x1000))
    × Linked a 0x1000 regions (add_vme regions (new_vme 0 0x1000))
    × (user_lo ≤ a)
    × (a ≤ 0x8000_2000)
    × (a + 0x1000 ≤ user_hi)
add_vme-first_fit_example =
    add_vme-first_fit 0x1000 0x8000_2000 regions regions-Sorted (omega arith) (omega arith)
      (omega arith) (omega arith)

add_vme-outcome_example :
    (add_vme regions (new_vme 0 0x1000) ≡ (0, regions))
    ⊎ ((a : ℕ) × Added user_lo a 0x1000 regions (add_vme regions (new_vme 0 0x1000))
        × Linked a 0x1000 regions (add_vme regions (new_vme 0 0x1000))
        × (user_lo ≤ a)
        × (a + 0x1000 ≤ user_hi))
add_vme-outcome_example = add_vme-outcome 0x1000 regions regions-Sorted (omega arith) (omega arith)

remove_lem_example :
    ((covers regions 0x8000_1234 ≡ false) × (remove regions 0x8000_1234 ≡ (none, regions)))
    ⊎ ((v : Vme) × ((remove regions 0x8000_1234).0 ≡ some v)
        × Removed user_lo 0x8000_1234 regions v (remove regions 0x8000_1234).1
        × (user_lo ≤ v.start))
remove_lem_example = remove_lem user_lo 0x8000_1234 regions regions-Sorted

contains_range_iff_example :
    (contains_range regions 0x8000_0010 0x8000_0020 ≡ true)
    ↔ ((x : ℕ) → 0x8000_0010 ≤ x → x ≤ 0x8000_0020 → covers regions x ≡ true)
contains_range_iff_example =
    contains_range_iff user_lo 0x8000_0010 0x8000_0020 regions regions-Sorted (omega arith)

deep_copy_lem_example : deep_copy regions ≡ regions
deep_copy_lem_example = deep_copy_lem regions regions-Sorted
