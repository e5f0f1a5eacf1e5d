-- ===== src/Children.antt =====
-- The stack of children of a process, of kernel/pcb.h. A process is a name; a place of the array that was never
-- written is `none`.
pub mod Stack
mod Tests
use simplified_os_kernel.Prelude.{
  ℕ, zero, suc, ◌-◌, ◌*◌, ◌%◌, Bool, Option, none, some, List, [], ◌∷◌, ◌++◌, get_elem?, set, ◌==◌,
  if◌then◌else◌,
}
use simplified_os_kernel.Prelude.Words.{u32_mod, add32, sub32}

pub record Children : Type 0 where
  pub size : ℕ
  pub capacity : ℕ
  pub children : List (Option ℕ)

-- `new PCB*[n]`.
unfoldable pub new_children : ℕ → List (Option ℕ)
new_children zero = []
new_children (suc n) = none ∷ new_children n

unfoldable pub no_children : Children
no_children = record { size = 0; capacity = 1; children = new_children 1 }

-- The loop of `resize`: the entries from `i` on, with `left` rounds left.
unfoldable pub copy_children : List (Option ℕ) → ℕ → List (Option ℕ) → List (Option ℕ)
copy_children [] i to = to
copy_children (c ∷ from) i to = copy_children from (suc i) (set to i c)

unfoldable pub resize : Children → Children
resize s = record s {
  capacity = s.capacity * 2 % u32_mod;
  children = copy_children s.children 0 (new_children (s.capacity * 2 % u32_mod));
}

unfoldable pub push : ℕ → Children → Children
push child s = record s { children = set s.children s.size (some child); size = add32 s.size 1 }

unfoldable pub add_child : ℕ → Children → Children
add_child child s = push child (if s.size == s.capacity then resize s else s)

abbrev pub at_place : Option (Option ℕ) → Option ℕ
at_place none = none
at_place (some c) = c

unfoldable pub is_childless : Children → Bool
is_childless s = s.size == 0

unfoldable pub peek_child : Children → Option ℕ
peek_child s = if s.size == 0 then none else at_place (get_elem? s.children (sub32 s.size 1))

unfoldable pub remove_child : Children → Option ℕ × Children
remove_child s =
    (at_place (get_elem? s.children (sub32 s.size 1)), record s { size = sub32 s.size 1 })
