-- ===== src/FilePath/Walk.antt =====
-- The loop of find_path_node looks up the names of the path.
use simplified_os_kernel.Prelude.{
  ◌>>=◌, ℕ, zero, suc, ◌≤◌, ◌<◌, ◌≡◌, refl, sym, ap, ap₂, ◌∙◌, arith, Bool, true, false, ◌⊎◌, inl,
  inr, Option, none, some, List, [], ◌∷◌, length, ◌==◌, Bool-cases,
}
use simplified_os_kernel.Files.{Node, is_dir}
use simplified_os_kernel.FilePath.{
  slash, is_open, skip_slashes, until_slash, enter, behind, round, walk,
}
use simplified_os_kernel.FilePath.Resolve.{
  grow, fields, non_empty, names, is_bare, directory_only, checked, resolve,
}

-- The cut at the first slash.
abbrev later_fields : List ℕ → List (List ℕ)
later_fields [] = []
later_fields (c ∷ s) = fields s

fields-until : (s : List ℕ) → fields s ≡ (until_slash s).0 ∷ later_fields (until_slash s).1
unfolding fields until_slash
fields-until [] = refl
fields-until (c ∷ s) = elim (Bool-cases (c == slash)) [
  | inl cut ↦ rw cut refl
  | inr more ↦ rw more (ap (grow c) (fields-until s))
]

abbrev later_bare : List ℕ → Bool
later_bare [] = false
later_bare (c ∷ s) = is_bare true s

-- In a name, whether the path is bare is left to what follows its slash.
is_bare-until : (s : List ℕ) → is_bare false s ≡ later_bare (until_slash s).1
unfolding is_bare until_slash
is_bare-until [] = refl
is_bare-until (c ∷ []) = ground arith
is_bare-until (c ∷ d ∷ s) = elim (Bool-cases (c == slash)) [
  | inl cut ↦ rw cut refl
  | inr more ↦ rw more (is_bare-until (d ∷ s))
]

bare_name :
    (c : ℕ) (s : List ℕ) → (c == slash) ≡ false → is_bare true (c ∷ s) ≡ is_bare false (c ∷ s)
unfolding is_bare
bare_name c [] h = rw h refl
bare_name c (d ∷ s) h = refl

-- Leading slashes: the path has nothing else, or they do not count.
skipped :
    (c : ℕ) (s : List ℕ)
    → ((skip_slashes (c ∷ s) ≡ []) × (is_bare true (c ∷ s) ≡ true) × (names (c ∷ s) ≡ []))
      ⊎ ((d : ℕ) × (r : List ℕ) × (skip_slashes (c ∷ s) ≡ d ∷ r)
          × ((d == slash) ≡ false)
          × (is_bare true (c ∷ s) ≡ is_bare true (d ∷ r))
          × (names (c ∷ s) ≡ names (d ∷ r))
          × (length (d ∷ r) ≤ length (c ∷ s)))
unfolding skip_slashes is_bare fields non_empty
skipped c [] = elim (Bool-cases (c == slash)) [
  | inl cut ↦ inl (rw cut refl, rw cut refl, rw cut refl)
  | inr more ↦ inr (c, [], rw more refl, more, refl, refl, omega arith)
]
skipped c (d ∷ s) = elim (Bool-cases (c == slash)) [
  | inl cut ↦ elim (skipped d s) [
    | inl (a, b, n) ↦ inl (rw cut a, rw cut b, rw cut n)
    | inr (e, r, a, h, b, n, l) ↦ inr (e, r, rw cut a, h, rw cut b, rw cut n, omega (arith, l))
  ]
  | inr more ↦ inr (c, d ∷ s, rw more refl, more, refl, refl, omega arith)
]

until_name :
    (c : ℕ) (s : List ℕ)
    → (c == slash) ≡ false
    → (until_slash (c ∷ s) ≡ (c ∷ (until_slash s).0, (until_slash s).1))
unfolding until_slash
until_name c s h = rw h refl

length-until : (s : List ℕ) → length (until_slash s).1 ≤ length s
unfolding until_slash
length-until [] = omega arith
length-until (c ∷ s) = ground (arith, length-until s)

names-until :
    (c : ℕ) (s : List ℕ)
    → (c == slash) ≡ false
    → names (c ∷ s) ≡ (c ∷ (until_slash s).0) ∷ non_empty (later_fields (until_slash s).1)
unfolding non_empty
names-until c s h =
    ap non_empty (fields-until (c ∷ s))
    ∙ ap (λ r. non_empty (r.0 ∷ later_fields r.1)) (until_name c s h)

bare_rest :
    (d : ℕ) (r : List ℕ)
    → (d == slash) ≡ false
    → is_bare true (d ∷ r) ≡ later_bare (until_slash r).1
bare_rest d r h =
    bare_name d r h ∙ is_bare-until (d ∷ r) ∙ ap (λ u. later_bare u.1) (until_name d r h)

checked_fail : (b : Bool) → checked b none ≡ none
checked_fail true = refl
checked_fail false = refl

checked_bind :
    {A : Type 0} (b : Bool) (m : Option A) (f g : A → Option (Option Node))
    → ((x : A) → f x ≡ checked b (g x))
    → (m >>= f) ≡ checked b (m >>= g)
checked_bind b none f g h = sym (checked_fail b)
checked_bind b (some x) f g h = h x

module _ (find : Node → List ℕ → Option (Option Node)) where
  checked_null : (b : Bool) → checked b (some none) ≡ some none
  checked_null true = refl
  checked_null false = refl

  no_names :
      (current : Option Node)
      → some current ≡ checked (is_bare true []) (resolve find current (names []))
  unfolding resolve is_bare fields non_empty
  no_names current = refl

  no_names_checked :
      (current : Option Node) → checked true (resolve find current []) ≡ directory_only current
  unfolding resolve
  no_names_checked current = refl

  -- What follows the name of a round.
  behind_lem :
      (more : Option Node → List ℕ → Option (Option Node)) (next : Option Node) (rest : List ℕ)
      → ((s : List ℕ)
          → length s < length rest
          → more next s ≡ checked (is_bare true s) (resolve find next (names s)))
      → behind find more next rest
        ≡ checked (later_bare rest) (resolve find next (non_empty (later_fields rest)))
  unfolding behind resolve non_empty
  behind_lem more next [] ih = refl
  behind_lem more next (c ∷ s) ih = ih s (omega arith)

  -- A round with a name in it.
  round_lem :
      (more : Option Node → List ℕ → Option (Option Node)) (current : Option Node) (s : List ℕ)
      (d : ℕ) (r : List ℕ)
      → skip_slashes s ≡ d ∷ r
      → (d == slash) ≡ false
      → ((next : Option Node) (t : List ℕ)
          → length t < length (d ∷ r)
          → more next t ≡ checked (is_bare true t) (resolve find next (names t)))
      → round find more current s
        ≡ checked (is_bare true (d ∷ r)) (resolve find current (names (d ∷ r)))
  unfolding round enter resolve
  round_lem more none s d r e h ih =
      rw (names-until d r h) (sym (checked_null (is_bare true (d ∷ r))))
  round_lem more (some node) s d r e h ih = elim (Bool-cases (is_dir node)) [
    | inl dir ↦
        rw (dir, e, until_name d r h, names-until d r h, dir)
          (checked_bind (is_bare true (d ∷ r)) (find node (d ∷ (until_slash r).0)) _ _ λ next.
            rw (bare_rest d r h) (
              behind_lem more next (until_slash r).1
                λ t lt. ih next t (omega (arith, lt, length-until r))))
    | inr file ↦ rw (file, names-until d r h, file) (sym (checked_null (is_bare true (d ∷ r))))
  ]

  only_slashes :
      (more : Option Node → List ℕ → Option (Option Node)) (current : Option Node) (s : List ℕ)
      → skip_slashes s ≡ []
      → round find more current s ≡ directory_only current
  unfolding round
  only_slashes more current s e = elim (Bool-cases (is_open current)) [
    | inl dir ↦ rw (dir, e) refl
    | inr other ↦ rw other refl
  ]

  pub walk_lem :
      (fuel : ℕ) (current : Option Node) (s : List ℕ)
      → length s < fuel
      → walk find fuel current s ≡ checked (is_bare true s) (resolve find current (names s))
  unfolding walk
  walk_lem zero current s h = absurd (omega arith)
  walk_lem (suc fuel) current [] h = no_names current
  walk_lem (suc fuel) current (c ∷ s) h = elim (skipped c s) [
    | inl (e, b, n) ↦
        only_slashes (walk find fuel) current (c ∷ s) e
        ∙ sym (ap₂ (λ v ns. checked v (resolve find current ns)) b n ∙ no_names_checked current)
    | inr (d, r, e, f, b, n, l) ↦
        round_lem (walk find fuel) current (c ∷ s) d r e f
          (λ next t lt. walk_lem fuel next t (omega (arith, lt, l)))
        ∙ sym (ap₂ (λ v ns. checked v (resolve find current ns)) b n)
  ]
