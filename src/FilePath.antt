-- ===== src/FilePath.antt =====
-- find_path_node and [1020] chdir of kernel/sys.cc. A path is its bytes up to the NUL that ends it, with the address
-- that it stands at. A null node is the inner `none`; the outer one is a failed ASSERT of the file system.
pub mod Resolve
pub mod Walk
pub mod Find
mod Tests
use simplified_os_kernel.Prelude.{
  ℕ, zero, suc, Bool, true, false, not, ◌||◌, Option, none, some, List, [], ◌∷◌, length, ltb, leb,
  ◌==◌, if◌then◌else◌, ◌>>=◌,
}
use simplified_os_kernel.Prelude.Words.{minus_one, add32, sub32, user_lo, user_hi}
use simplified_os_kernel.Files.{Node, is_dir}

abbrev pub slash : ℕ
slash = b'/'

-- `current_node == nullptr || !(current_node->is_dir())`, negated.
abbrev pub is_open : Option Node → Bool
is_open none = false
is_open (some node) = is_dir node

-- `while (path_name[i] == '/') i++;`
unfoldable pub skip_slashes : List ℕ → List ℕ
skip_slashes [] = []
skip_slashes (c ∷ s) = if c == slash then skip_slashes s else c ∷ s

-- The name up to `next`, and the rest of the path from there.
unfoldable pub until_slash : List ℕ → List ℕ × List ℕ
until_slash [] = ([], [])
until_slash (c ∷ s) = if c == slash then ([], c ∷ s) else (c ∷ (until_slash s).0, (until_slash s).1)

unfoldable pub start : Node → Option Node → List ℕ → Option Node
start root cwd [] = cwd
start root cwd (c ∷ s) = if c == slash then some root else cwd

-- The last byte of the path lies outside the user range, or its address wraps.
unfoldable pub bad_end : ℕ → List ℕ → Bool
bad_end path_name path =
    leb user_hi (sub32 (add32 path_name (length path)) 1)
    || ltb (sub32 (add32 path_name (length path)) 1) (sub32 (length path) 1)

-- `find` is `fs->find`.
module _ (find : Node → List ℕ → Option (Option Node)) where
  unfoldable pub enter : Option Node → List ℕ → Option (Option Node)
  enter current [] = some current
  enter none (c ∷ name) = none
  enter (some node) (c ∷ name) = find node (c ∷ name)

  -- The end of a round: the path ends at `next`, or the loop goes on behind the slash.
  unfoldable pub behind :
      (Option Node → List ℕ → Option (Option Node)) → Option Node → List ℕ → Option (Option Node)
  behind more current [] = some current
  behind more current (c ∷ s) = more current s

  unfoldable pub round :
      (Option Node → List ℕ → Option (Option Node)) → Option Node → List ℕ → Option (Option Node)
  unfolding enter behind until_slash
  round more current s =
      if is_open current
      then (do
        next ← enter current (until_slash (skip_slashes s)).0
        behind more next (until_slash (skip_slashes s)).1)
      else some none

  unfoldable pub walk : ℕ → Option Node → List ℕ → Option (Option Node)
  walk zero current s = none
  walk (suc fuel) current [] = some current
  walk (suc fuel) current (c ∷ s) = round (walk fuel) current (c ∷ s)

  -- Each round but the last takes a byte at least.
  unfoldable pub find_path_node : Node → Option Node → ℕ → List ℕ → Option (Option Node)
  find_path_node root cwd path_name path =
      if ltb path_name user_lo || leb user_hi path_name then some none else (do
        node ← walk (suc (length path)) (start root cwd path) path
        some (if bad_end path_name path then none else node))

  -- The value, and the node of the working directory after the call.
  unfoldable pub chdir : Node → Option Node → ℕ → List ℕ → Option (ℕ × Option Node)
  chdir root cwd path_name path = do
    node ← find_path_node root cwd path_name path
    some (elim node [ none ↦ (minus_one, cwd) | some n ↦ (0, some n) ])
