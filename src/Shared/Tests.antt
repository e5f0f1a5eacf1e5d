-- ===== src/Shared/Tests.antt =====
-- A store with one object, which two of the three pointers of a table share.
use simplified_os_kernel.Prelude.{
  ℕ, ◌≡◌, refl, arith, none, some, List, [], ◌∷◌, set, if◌then◌else◌, ◌==◌,
}
use simplified_os_kernel.Shared.{Store, Shared, copy_assign}
use simplified_os_kernel.Shared.Counts.{Table, copy_assign-Table}

abbrev store : Store ℕ
store = record {
  next_name = 1;
  object = λ p. if p == 0 then some (record { content = 7; ref_count = 2 }) else none;
}

abbrev table : List Shared
table = some 0 ∷ none ∷ some 0 ∷ []

store-Table : Table store table
store-Table = (
  omega arith,
  record { counted = λ p. ground arith; fresh = λ p h. ground (arith, h); few = λ p. ground arith },
)

copy_assign-Table_example :
    (s : Store ℕ) × (copy_assign none (some 0) store ≡ some (some 0, s))
    × Table s (set table 1 (some 0))
copy_assign-Table_example = copy_assign-Table store table 1 0 none (some 0) store-Table refl refl
