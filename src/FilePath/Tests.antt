-- ===== src/FilePath/Tests.antt =====
-- A root directory that holds a file "a" and itself as "d".
use simplified_os_kernel.Prelude.{
  ℕ, ◌≡◌, ◌⊎◌, refl, arith, true, Option, none, some, List, [], ◌∷◌, ◌==◌, if◌then◌else◌,
}
use simplified_os_kernel.Prelude.Words.{minus_one}
use simplified_os_kernel.Files.{Node}
use simplified_os_kernel.FilePath.{
  enter, behind, round, until_slash, skip_slashes, walk, start, bad_end, find_path_node, chdir,
}
use simplified_os_kernel.FilePath.Resolve.{is_bare, names, checked, resolve}
use simplified_os_kernel.FilePath.Find.{IsInside, outside_result, find_path_node_lem}

abbrev node : ℕ → Node
node mode = record {
  mode = mode;
  device = record { block_size = 4; size_in_bytes = 10; reads = λ b. true; read_block = λ b i. 0 };
}

abbrev small_root : Node
small_root = node 0x4000

abbrev small_find : Node → List ℕ → Option (Option Node)
small_find dir [] = some none
small_find dir (c ∷ name) =
    if c == b'd'
    then some (some dir)
    else if c == b'a'
    then some (some (node 0x8000))
    else some none

-- "/d//a" is the file, and "/a//" is nothing.
file_found :
    find_path_node small_find small_root none 0x9000_0000 (b'/' ∷ b'd' ∷ b'/' ∷ b'/' ∷ b'a' ∷ [])
    ≡ some (some (node 0x8000))
unfolding find_path_node walk start bad_end round enter behind until_slash skip_slashes
file_found = refl

bare_file :
    find_path_node small_find small_root none 0x9000_0000 (b'/' ∷ b'a' ∷ b'/' ∷ b'/' ∷ [])
    ≡ some none
unfolding find_path_node walk start bad_end round enter behind until_slash skip_slashes
bare_file = refl

-- The empty path changes no working directory.
no_path :
    chdir small_find small_root (some small_root) 0x9000_0000 [] ≡ some (minus_one, some small_root)
unfolding chdir find_path_node walk start bad_end
no_path = refl

find_path_node_lem_example :
    (IsInside 0x9000_0000 (b'd' ∷ b'/' ∷ [])
      × (find_path_node small_find small_root (some small_root) 0x9000_0000 (b'd' ∷ b'/' ∷ [])
          ≡ checked (is_bare true (b'd' ∷ b'/' ∷ [])) (
              resolve small_find
                (start small_root (some small_root) (b'd' ∷ b'/' ∷ []))
                (names (b'd' ∷ b'/' ∷ [])))))
    ⊎ (¬ IsInside 0x9000_0000 (b'd' ∷ b'/' ∷ [])
        × (find_path_node small_find small_root (some small_root) 0x9000_0000 (b'd' ∷ b'/' ∷ [])
            ≡ outside_result small_find small_root
                (some small_root)
                0x9000_0000
                (b'd' ∷ b'/' ∷ [])))
find_path_node_lem_example =
    find_path_node_lem small_find small_root (some small_root) 0x9000_0000 (b'd' ∷ b'/' ∷ [])
      (omega arith)
