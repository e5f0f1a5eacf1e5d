-- ===== src/Ext2/Names.antt =====
-- The search of a name in a directory.
use simplified_os_kernel.Prelude.{
  ℕ, ◌^◌, ◌<◌, ◌≡◌, ◌≢◌, refl, sym, ap, ◌∙◌, true, some, List, [], ◌∷◌, ◌++◌, ◌==◌, Bool-cases, ◌⊎◌,
  inl, inr, if◌then◌else◌, map, All, ==→eq, ==→ne, eq→==, ne→==, ap₂,
}
use simplified_os_kernel.BlockIo.{IsReadable, Device, slice, u8}
use simplified_os_kernel.BlockIo.Slice.{content}
use simplified_os_kernel.Ext2.Nodes.{streq, last_match, find}
use simplified_os_kernel.Ext2.Directory.{Record, IsRecord, layout, entry_of, entries_lem}

-- The bytes before the first NUL.
unfoldable pub until_nul : List ℕ → List ℕ
until_nul [] = []
until_nul (x ∷ a) = if x == 0 then [] else x ∷ until_nul a

after_first : List ℕ → List ℕ
after_first [] = []
after_first (x ∷ a) = a

streq-true : (a b : List ℕ) → streq a b ≡ true → until_nul a ≡ until_nul b
unfolding streq until_nul
streq-true [] [] e = refl
streq-true [] (y ∷ b) e = rw (e) refl
streq-true (x ∷ a) [] e = rw (e) refl
streq-true (x ∷ a) (y ∷ b) e = elim (Bool-cases (x == y)) [
  | inr other ↦ absurd (cc (rw (other) at e))
  | inl same ↦ elim (Bool-cases (x == 0)) [
    | inl end ↦ rw (end, eq→== y 0 (sym (==→eq x y same) ∙ ==→eq x 0 end)) refl
    | inr goes_on ↦
        rw (goes_on, ne→== y 0 (λ z. ==→ne x 0 goes_on (==→eq x y same ∙ z)))
          (ap₂ (λ z r. z ∷ r) (==→eq x y same) (streq-true a b (rw (same, goes_on) at e)))
  ]
]

until_nul-streq : (a b : List ℕ) → until_nul a ≡ until_nul b → streq a b ≡ true
unfolding streq until_nul after_first
until_nul-streq [] [] e = refl
until_nul-streq [] (y ∷ b) e = elim (Bool-cases (y == 0)) [
  | inl end ↦ end
  | inr goes_on ↦ absurd (cc (rw (goes_on) at e))
]
until_nul-streq (x ∷ a) [] e = elim (Bool-cases (x == 0)) [
  | inl end ↦ end
  | inr goes_on ↦ absurd (cc (rw (goes_on) at e))
]
until_nul-streq (x ∷ a) (y ∷ b) e = elim (Bool-cases (x == 0)) [
  | inl end ↦ elim (Bool-cases (y == 0)) [
    | inl end' ↦ rw (eq→== x y (==→eq x 0 end ∙ sym (==→eq y 0 end')), end) refl
    | inr goes_on ↦ absurd (cc (rw (end, goes_on) at e))
  ]
  | inr goes_on ↦ elim (Bool-cases (y == 0)) [
    | inl end ↦ absurd (cc (rw (goes_on, end) at e))
    | inr goes_on' ↦
        let both : x ∷ until_nul a ≡ y ∷ until_nul b = rw (goes_on, goes_on') at e in
        rw (eq→== x y (ap (λ l. u8 l 0) both), goes_on) (until_nul-streq a b (ap after_first both))
  ]
]

-- No record has the name.
abbrev pub HasNone : List ℕ → List Record → Type 0
HasNone name = All (λ r. until_nul name ≢ until_nul r.name)

-- The last record with the name decides.
last_match_lem :
    (name : List ℕ) (out : ℕ) (rs : List Record)
    → (HasNone name rs × (last_match name out (map entry_of rs) ≡ out))
      ⊎ ((before : List Record) × (r : Record) × (after : List Record) × (rs
            ≡ before ++ (r ∷ after))
          × (until_nul name ≡ until_nul r.name)
          × HasNone name after
          × (last_match name out (map entry_of rs) ≡ r.inode))
unfolding last_match
last_match_lem name out [] = inl (tt, refl)
last_match_lem name out (r ∷ rs) =
    elim (last_match_lem name (if streq name r.name then r.inode else out) rs) [
      | inr (before, s, after, parts, same, none_after, e) ↦
          inr (r ∷ before, s, after, ap (λ l. r ∷ l) parts, same, none_after, e)
      | inl (none_after, e) ↦ elim (Bool-cases (streq name r.name)) [
        | inl same ↦
            inr ([], r, rs, refl, streq-true name r.name same, none_after, e ∙ rw (same) refl)
        | inr other ↦ inl (
          ((λ same. absurd (cc (other, until_nul-streq name r.name same))), none_after),
          e ∙ rw (other) refl,
        )
      ]
    ]

-- In a directory of less than 2^32 bytes, in blocks that are not empty and can be read, whose bytes are those of a
-- list of records, find gives the node of the last record with the name, where the names are
-- compared up to a NUL, and 0 if no record has it.
pub find_lem :
    (d : Device) (rs : List Record) (name : List ℕ)
    → IsReadable d
    → d.size_in_bytes < 2 ^ 32
    → slice (content d) 0 d.size_in_bytes ≡ layout rs
    → All IsRecord rs
    → (HasNone name rs × (find true d name ≡ some 0))
      ⊎ ((before : List Record) × (r : Record) × (after : List Record) × (rs
            ≡ before ++ (r ∷ after))
          × (until_nul name ≡ until_nul r.name)
          × HasNone name after
          × (find true d name ≡ some r.inode))
unfolding find
find_lem d rs name pos small held fine = elim (last_match_lem name 0 rs) [
  | inl (nowhere, e) ↦ inl (nowhere, found ∙ ap (λ n. some n) e)
  | inr (before, r, after, parts, same, none_after, e) ↦
      inr (before, r, after, parts, same, none_after, found ∙ ap (λ n. some n) e)
]
  where
    found : find true d name ≡ some (last_match name 0 (map entry_of rs))
    found = rw ((entries_lem d rs pos small held fine).0) refl
