-- ===== src/FilePath/Resolve.antt =====
-- What a path stands for: its names, between slashes, looked up one after the other.
use simplified_os_kernel.Prelude.{
  ◌>>=◌, ℕ, Bool, true, false, ◌&&◌, Option, none, some, List, [], ◌∷◌, ◌==◌, if◌then◌else◌,
}
use simplified_os_kernel.Files.{Node, is_dir}
use simplified_os_kernel.FilePath.{slash, is_open}

abbrev pub grow : ℕ → List (List ℕ) → List (List ℕ)
grow c [] = (c ∷ []) ∷ []
grow c (f ∷ fs) = (c ∷ f) ∷ fs

-- The path cut at each slash.
unfoldable pub fields : List ℕ → List (List ℕ)
fields [] = [] ∷ []
fields (c ∷ s) = if c == slash then [] ∷ fields s else grow c (fields s)

unfoldable pub non_empty : List (List ℕ) → List (List ℕ)
non_empty [] = []
non_empty ([] ∷ fs) = non_empty fs
non_empty ((c ∷ f) ∷ fs) = (c ∷ f) ∷ non_empty fs

abbrev pub names : List ℕ → List (List ℕ)
names s = non_empty (fields s)

-- The path ends with a slash that is its first byte, or follows another; `after` tells whether a slash stands before the path.
unfoldable pub is_bare : Bool → List ℕ → Bool
is_bare after [] = false
is_bare after (c ∷ []) = after && c == slash
is_bare after (c ∷ d ∷ s) = is_bare (c == slash) (d ∷ s)

-- A node that is not a directory does not count.
abbrev pub directory_only : Option Node → Option (Option Node)
directory_only current = some (if is_open current then current else none)

abbrev pub checked : Bool → Option (Option Node) → Option (Option Node)
checked false r = r
checked true r = r >>= directory_only

module _ (find : Node → List ℕ → Option (Option Node)) where
  -- Each name is looked up in a directory.
  unfoldable pub resolve : Option Node → List (List ℕ) → Option (Option Node)
  resolve current [] = some current
  resolve none (name ∷ ns) = some none
  resolve (some node) (name ∷ ns) =
      if is_dir node then (do next ← find node name; resolve next ns) else some none
