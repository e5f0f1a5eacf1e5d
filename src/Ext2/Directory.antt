-- ===== src/Ext2/Directory.antt =====
-- The entries of a directory that is laid out as records, one after the other.
use simplified_os_kernel.Prelude.{
  ℕ, zero, suc, ◌+◌, ◌-◌, ◌/◌, ◌%◌, ◌^◌, ◌≤◌, ◌<◌, ◌≡◌, refl, sym, ap, ap₂, ◌∙◌, subst, arith, true,
  some, List, [], ◌∷◌, ◌++◌, length, length-append, lt→ltb, le→ltb, map, All,
}
use simplified_os_kernel.Prelude.Words.{add32}
use simplified_os_kernel.BlockIo.{IsReadable, Device, slice, read_thing, u8, u16, u32}
use simplified_os_kernel.BlockIo.Slice.{content, length-slice}
use simplified_os_kernel.BlockIo.Things.{read_thing_lem}
use simplified_os_kernel.Ext2.Nodes.{Entry, read_entry, entries_loop, entries, entry_count}

-- A record, with the bytes that it is padded with.
pub record Record : Type 0 where
  pub inode : ℕ
  pub file_type : ℕ
  pub name : List ℕ
  pub pad : List ℕ

abbrev pub total : Record → ℕ
total r = 8 + length r.name + length r.pad

-- The numbers have room in their fields.
pub record IsRecord (r : Record) : Type 0 where
  pub word : r.inode < 2 ^ 32
  pub half : total r < 2 ^ 16
  pub byte : length r.name < 256

abbrev bytes2 : ℕ → List ℕ
bytes2 v = v % 256 ∷ v / 256 % 256 ∷ []

abbrev bytes4 : ℕ → List ℕ
bytes4 v = v % 256 ∷ v / 256 % 256 ∷ v / 65536 % 256 ∷ v / 16777216 % 256 ∷ []

-- The records, as bytes.
abbrev pub layout : List Record → List ℕ
layout [] = []
layout (r ∷ rs) =
    bytes4 r.inode
    ++ (bytes2 (total r)
        ++ ((length r.name % 256 ∷ []) ++ ((r.file_type ∷ []) ++ (r.name ++ (r.pad ++ layout rs)))))

abbrev pub entry_of : Record → Entry
entry_of r = record { inode = r.inode; total_size = total r; name = r.name }

u16-bytes2 : (v : ℕ) → v < 2 ^ 16 → u16 (bytes2 v) 0 ≡ v
u16-bytes2 v h = omega arith

u32-bytes4 : (v : ℕ) → v < 2 ^ 32 → u32 (bytes4 v) 0 ≡ v
u32-bytes4 v h = omega arith

rest_of : List ℕ → List ℕ
rest_of [] = []
rest_of (x ∷ xs) = xs

slice_at : (f : ℕ → ℕ) (o o' k k' : ℕ) → o ≡ o' → k ≡ k' → slice f o k ≡ slice f o' k'
slice_at f o o' k k' e e' = ap₂ (slice f) e e'

-- A slice of two parts, cut where they meet.
cut :
    (f : ℕ → ℕ) (from k m : ℕ) (xs ys : List ℕ)
    → slice f from k ≡ xs ++ ys
    → length xs ≡ m
    → (slice f from m ≡ xs) × (slice f (from + m) (k - m) ≡ ys)
unfolding slice rest_of
cut f from k zero [] ys e h =
    (refl, slice_at f (from + 0) from (k - 0) k (omega arith) (omega arith) ∙ e)
cut f from k (suc m) [] ys e h = absurd (omega (arith, h))
cut f from k zero (x ∷ xs) ys e h = absurd (omega (arith, h))
cut f from zero (suc m) (x ∷ xs) ys e h = absurd (cc e)
cut f from (suc k) (suc m) (x ∷ xs) ys e h =
    let (here, after) = cut f (from + 1) k m xs ys (ap rest_of e) (omega (arith, h)) in
    (
      ap₂ (λ y r. y ∷ r) (ap (λ l. u8 l 0) e) here,
      slice_at f (from + suc m) (from + 1 + m) (suc k - suc m) (k - m) (omega arith) (omega arith)
          ∙ after,
    )

-- What the directory holds from an offset up to its end.
record From (d : Device) (o : ℕ) (bytes : List ℕ) : Type 0 where
  inside : o ≤ d.size_in_bytes
  held : slice (content d) o (d.size_in_bytes - o) ≡ bytes

module _ (d : Device) (pos : IsReadable d) (small : d.size_in_bytes < 2 ^ 32) where
  -- A field at an offset, when the rest of the directory starts with it.
  field_lem :
      (o m o' : ℕ) (xs ys : List ℕ)
      → From d o (xs ++ ys)
      → length xs ≡ m
      → o' ≡ o + m
      → (read_thing d o m ≡ some xs) × From d o' ys
  field_lem o m o' xs ys at h next =
      let (here, after) = cut (content d) o (d.size_in_bytes - o) m xs ys at.held h in
      (
        read_thing_lem d o m pos (omega (arith, fits, at.inside)) ∙ ap (λ b. some b) here,
        record {
          inside = omega (arith, fits, at.inside);
          held =
              slice_at (content d) o' (o + m) (d.size_in_bytes - o') (d.size_in_bytes - o - m) next
                (omega (arith, next))
              ∙ after;
        },
      )
    where
      fits : m ≤ d.size_in_bytes - o
      fits = omega (
        arith,
        h,
        ap length at.held,
        length-append xs ys,
        length-slice (content d) o (d.size_in_bytes - o),
      )

  -- What the loop reads where a record stands.
  read_entry_lem :
      (o : ℕ) (r : Record) (rs : List Record)
      → From d o (layout (r ∷ rs))
      → IsRecord r
      → (read_entry d o ≡ some (entry_of r))
        × From d (add32 o (total r)) (layout rs)
        × (o + total r ≤ d.size_in_bytes)
  unfolding read_entry
  read_entry_lem o r rs at fine =
      let after_name : List ℕ = r.pad ++ layout rs in
      let after_type : List ℕ = r.name ++ after_name in
      let after_length : List ℕ = (r.file_type ∷ []) ++ after_type in
      let after_total : List ℕ = (length r.name % 256 ∷ []) ++ after_length in
      let (a, at4) =
        field_lem o 4 (o + 4) (bytes4 r.inode) (bytes2 (total r) ++ after_total) at refl refl in
      let (b, at6) =
        field_lem (o + 4) 2 (o + 6) (bytes2 (total r)) after_total at4 refl (omega arith) in
      let (c, at7) =
        field_lem (o + 6) 1 (o + 7) (length r.name % 256 ∷ []) after_length at6 refl
          (omega arith) in
      let (_, at8) =
        field_lem (o + 7) 1 (o + 8) (r.file_type ∷ []) after_type at7 refl (omega arith) in
      let (n, at_pad) =
        field_lem (o + 8) (length r.name) (o + 8 + length r.name) r.name after_name at8 refl refl in
      let (_, at_next) =
        field_lem (o + 8 + length r.name) (length r.pad) (o + total r) r.pad (layout rs) at_pad refl
          (omega arith) in
      (
        rw
            (
              a,
              wrap (o + 4) at4.inside,
              b,
              wrap (o + 6) at6.inside,
              c,
              wrap (o + 8) at8.inside,
              short,
              n,
            )
            (ap₂ (λ i t. some (record { inode = i; total_size = t; name = r.name }))
              (u32-bytes4 r.inode fine.word) (u16-bytes2 (total r) fine.half)),
        subst (λ p. From d p (layout rs)) (sym (wrap (o + total r) at_next.inside)) at_next,
        at_next.inside,
      )
    where
      wrap : (x : ℕ) → x ≤ d.size_in_bytes → x % 2 ^ 32 ≡ x
      wrap x h = omega arith

      short : length r.name % 256 ≡ length r.name
      short = omega (arith, fine.byte)

  -- The loop gives the entries of the records, on a round for each, and one more.
  entries_loop_lem :
      (fuel o : ℕ) (rs : List Record)
      → From d o (layout rs)
      → All IsRecord rs
      → length rs < fuel
      → entries_loop fuel d o ≡ some (map entry_of rs)
  unfolding entries_loop
  entries_loop_lem zero o rs at fine enough = absurd (omega (arith, enough))
  entries_loop_lem (suc fuel) o [] at fine enough =
      rw
        (le→ltb o d.size_in_bytes
          (omega (arith, ap length at.held, length-slice (content d) o (d.size_in_bytes - o))))
        refl
  entries_loop_lem (suc fuel) o (r ∷ rs) at fine enough =
      let (e, next, inside) = read_entry_lem o r rs at fine.0 in
      rw
        (
          lt→ltb o d.size_in_bytes (omega (arith, inside)),
          e,
          entries_loop_lem fuel (add32 o (total r)) rs next fine.1 (omega (arith, enough)),
        )
        refl

few_records : (rs : List Record) → length rs ≤ length (layout rs)
few_records [] = omega arith
few_records (r ∷ rs) = omega (
  arith,
  few_records rs,
  length-append r.name (r.pad ++ layout rs),
  length-append r.pad (layout rs),
)

-- A directory of less than 2^32 bytes, in blocks that are not empty, whose bytes are those of a list
-- of records has the entries of these records, in order; and their number is the entry count.
pub entries_lem :
    (d : Device) (rs : List Record)
    → IsReadable d
    → d.size_in_bytes < 2 ^ 32
    → slice (content d) 0 d.size_in_bytes ≡ layout rs
    → All IsRecord rs
    → (entries true d ≡ some (map entry_of rs)) × (entry_count true d ≡ some (length rs))
unfolding entries entry_count
entries_lem d rs pos small held fine = (loop, rw (loop) (ap (λ n. some n) (same rs)))
  where
    few : length rs ≤ d.size_in_bytes
    few = omega (arith, few_records rs, ap length held, length-slice (content d) 0 d.size_in_bytes)

    loop : entries_loop (suc d.size_in_bytes) d 0 ≡ some (map entry_of rs)
    loop =
        entries_loop_lem d pos small (suc d.size_in_bytes) 0 rs
          (record {
            inside = omega arith;
            held =
                slice_at (content d) 0 0 (d.size_in_bytes - 0) d.size_in_bytes refl (omega arith)
                ∙ held;
          })
          fine (omega (arith, few))

    same : (rs : List Record) → length (map entry_of rs) ≡ length rs
    same [] = refl
    same (r ∷ rs) = ap suc (same rs)
