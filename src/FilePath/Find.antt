-- ===== src/FilePath/Find.antt =====
-- find_path_node and chdir, at every address and path.
use simplified_os_kernel.Prelude.{
  ◌>>=◌, ℕ, suc, ◌+◌, ◌^◌, ◌≤◌, ◌<◌, ◌≡◌, refl, arith, true, false, ◌||◌, ◌⊎◌, inl, inr, Option,
  none, some, List, length, ltb, leb, Bool-cases, if◌then◌else◌,
}
use simplified_os_kernel.Prelude.Words.{user_lo, user_hi}
use simplified_os_kernel.Files.{Node}
use simplified_os_kernel.FilePath.{start, bad_end, find_path_node}
use simplified_os_kernel.FilePath.Resolve.{names, is_bare, checked, resolve}
use simplified_os_kernel.FilePath.Walk.{walk_lem}

-- The path has a byte, and all its bytes lie in the user range.
pub record IsInside (path_name : ℕ) (path : List ℕ) : Type 0 where
  pub some_byte : 0 < length path
  pub from : user_lo ≤ path_name
  pub to : path_name + length path ≤ user_hi

inside_lem :
    (path_name : ℕ) (path : List ℕ)
    → length path < 2 ^ 31
    → (ltb path_name user_lo || leb user_hi path_name) ≡ false
    → bad_end path_name path ≡ false
    → IsInside path_name path
unfolding bad_end
inside_lem path_name path few a b = record {
  some_byte = ground arith;
  from = ground arith;
  to = ground arith;
}

good_start :
    (path_name : ℕ) (path : List ℕ)
    → IsInside path_name path
    → (ltb path_name user_lo || leb user_hi path_name) ≡ false
good_start path_name path i = ground (arith, i.some_byte, i.from, i.to)

good_end :
    (path_name : ℕ) (path : List ℕ) → IsInside path_name path → bad_end path_name path ≡ false
unfolding bad_end
good_end path_name path i = ground (arith, i.some_byte, i.from, i.to)

abbrev pub nothing : Option Node → Option (Option Node)
nothing found = some none

module _ (find : Node → List ℕ → Option (Option Node)) where
  -- What an inside path names, from the root if its first byte is a slash, and else from the working directory.
  abbrev pub named : Node → Option Node → List ℕ → Option (Option Node)
  named root cwd path =
      checked (is_bare true path) (resolve find (start root cwd path) (names path))

  -- No node: at once if the path starts outside the user range, else after the look-up, whose failed
  -- ASSERT, if there is one, is that of the call.
  abbrev pub outside_result : Node → Option Node → ℕ → List ℕ → Option (Option Node)
  outside_result root cwd path_name path =
      if ltb path_name user_lo || leb user_hi path_name
      then some none
      else (named root cwd path >>= nothing)

  find_inside :
      (root : Node) (cwd : Option Node) (path_name : ℕ) (path : List ℕ)
      → IsInside path_name path
      → find_path_node find root cwd path_name path ≡ named root cwd path
  unfolding find_path_node
  find_inside root cwd path_name path i =
      rw
        (
          good_start path_name path i,
          good_end path_name path i,
          walk_lem find (suc (length path)) (start root cwd path) path (omega arith),
        )
        (bind_some _)
    where
      bind_some : (m : Option (Option Node)) → (m >>= λ n. some n) ≡ m
      bind_some none = refl
      bind_some (some n) = refl

  find_outside :
      (root : Node) (cwd : Option Node) (path_name : ℕ) (path : List ℕ)
      → length path < 2 ^ 31
      → ¬ IsInside path_name path
      → find_path_node find root cwd path_name path ≡ outside_result root cwd path_name path
  unfolding find_path_node
  find_outside root cwd path_name path few out =
      elim (Bool-cases (ltb path_name user_lo || leb user_hi path_name)) [
        | inl away ↦ rw away refl
        | inr near ↦ elim (Bool-cases (bad_end path_name path)) [
          | inl bad ↦
              rw
                (
                  near,
                  bad,
                  walk_lem find (suc (length path)) (start root cwd path) path (omega arith),
                )
                refl
          | inr good ↦ absurd (out (inside_lem path_name path few near good))
        ]
      ]

  -- For a path shorter than 2^31 bytes: if it has a byte and lies in the user range, find_path_node
  -- looks up its names, the parts between slashes that are not empty, each in a directory, from the
  -- root if the path starts with a slash and else from the working directory, and wants the result
  -- to be a directory if the path ends with a slash that is its first byte or follows another;
  -- otherwise it gives no node, at once if the path starts outside the user range, and else after the
  -- same look-up. It fails an assertion only where that look-up does, and always ends.
  pub find_path_node_lem :
      (root : Node) (cwd : Option Node) (path_name : ℕ) (path : List ℕ)
      → length path < 2 ^ 31
      → (IsInside path_name path
          × (find_path_node find root cwd path_name path
              ≡ checked (is_bare true path) (resolve find (start root cwd path) (names path))))
        ⊎ (¬ IsInside path_name path
            × (find_path_node find root cwd path_name path
                ≡ outside_result root cwd path_name path))
  find_path_node_lem root cwd path_name path few = elim (Bool-cases (bad_end path_name path)) [
    | inl bad ↦ inr (outside bad, find_outside root cwd path_name path few (outside bad))
    | inr good ↦ elim (Bool-cases (ltb path_name user_lo || leb user_hi path_name)) [
      | inl away ↦ inr (far away, find_outside root cwd path_name path few (far away))
      | inr near ↦
          let i = inside_lem path_name path few near good in
          inl (i, find_inside root cwd path_name path i)
    ]
  ]
    where
      outside : bad_end path_name path ≡ true → ¬ IsInside path_name path
      outside bad i = absurd (cc (bad, good_end path_name path i))

      far : (ltb path_name user_lo || leb user_hi path_name) ≡ true → ¬ IsInside path_name path
      far away i = absurd (cc (away, good_start path_name path i))
