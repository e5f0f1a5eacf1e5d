-- ===== src/BlockIo/ReadAll.antt =====
-- `read` reads a part of the contents, and `read_all` all that was asked for.
use simplified_os_kernel.Prelude.{
  ℕ, zero, suc, subst, ◌+◌, ◌-◌, ◌/◌, ◌%◌, ◌≤◌, ◌<◌, ◌≡◌, ◌≢◌, refl, ap, sym, ◌∙◌, List, [], ◌∷◌,
  ◌++◌, arith, length, min, true, Option, some, inl, inr, leb, ◌==◌, if◌then◌else◌, Bool-cases,
  append-nil, append_assoc, lt→ltb, le→ltb, le→leb, ne→==, eq→==, ==→eq, ==→ne,
}
use native.Mathlib.Nat.{mod-lt, div-add-mod'}
use simplified_os_kernel.BlockIo.{
  Device, IsReadable, Read, error, got, slice, read_part, read, read_round, read_loop, read_all,
  k_min, assert,
}
use simplified_os_kernel.BlockIo.Slice.{content, length-slice, slice-append, slice-block}

k_min-le : (a b : ℕ) → (k_min a b ≤ a) × (k_min a b ≤ b)
unfolding k_min
k_min-le a b = ground arith

k_min_pos : (a b : ℕ) → 0 < a → 0 < b → 0 < k_min a b
unfolding k_min
k_min_pos a b ha hb = ground arith

k_min-min : (a b : ℕ) → k_min a b ≡ min a b
unfolding k_min
k_min-min a b = ground arith

-- The asserts of a read of `k` bytes within a block pass, and the bytes are those of the contents.
part_lem :
    (d : Device) (offset k : ℕ)
    → 0 < d.block_size
    → offset % d.block_size + k ≤ d.block_size
    → d.reads (offset / d.block_size) ≡ true
    → (if k == d.block_size
        then assert (offset % d.block_size == 0) (
            assert
              (d.reads (offset / d.block_size))
              (some (got (slice (d.read_block (offset / d.block_size)) 0 k))))
        else assert (leb (offset % d.block_size + k) d.block_size) (
            assert (d.reads (offset / d.block_size)) (
              some (got (slice (d.read_block (offset / d.block_size)) (offset % d.block_size) k)))))
      ≡ some (got (slice (content d) offset k))
part_lem d offset k pos fits reads = elim (Bool-cases (k == d.block_size)) [
  | inl whole ↦ rw (whole, eq→== _ 0 (start whole), reads) (ap (λ b. some (got b)) (at_start whole))
  | inr part ↦
      rw (part, le→leb _ _ fits, reads) (ap (λ b. some (got b)) (slice-block d offset k pos fits))
]
  where
    start : (k == d.block_size) ≡ true → offset % d.block_size ≡ 0
    start whole = omega (arith, ==→eq k d.block_size whole)

    at_start :
        (k == d.block_size) ≡ true
        → slice (d.read_block (offset / d.block_size)) 0 k ≡ slice (content d) offset k
    at_start whole =
        ap (λ i. slice (d.read_block (offset / d.block_size)) i k) (sym (start whole))
        ∙ slice-block d offset k pos fits

-- Inside the contents, `read` gives a non-empty part of what was asked for: up to the end of the block.
read_part_lem :
    (d : Device) (offset n : ℕ)
    → IsReadable d
    → 0 < n
    → offset + n ≤ d.size_in_bytes
    → (k : ℕ) × (read_part d offset n ≡ some (got (slice (content d) offset k))) × (0 < k) × (k ≤ n)
unfolding read_part
read_part_lem d offset n dev some_n fits = (
  k,
  rw (le→leb k n small.1, le→leb (offset + k) d.size_in_bytes (omega (arith, small.1)))
      (part_lem d offset k dev.some_block (omega (arith, small.0, place))
        (dev.all_read (offset / d.block_size) (omega (arith, div-add-mod' offset d.block_size)))),
  k_min_pos _ n (omega (arith, place)) some_n,
  small.1,
)
  where
    k : ℕ
    k = k_min (d.block_size - offset % d.block_size) n

    small : (k ≤ d.block_size - offset % d.block_size) × (k ≤ n)
    small = k_min-le _ n

    place : offset % d.block_size < d.block_size
    place = mod-lt offset dev.some_block

-- One call of `read`, at every offset.
read_lem :
    (d : Device) (offset n : ℕ)
    → IsReadable d
    → 0 < n
    → offset < d.size_in_bytes
    → (k : ℕ) × (read d offset n ≡ some (got (slice (content d) offset k)))
      × (0 < k)
      × (k ≤ n)
      × (offset + k ≤ d.size_in_bytes)
unfolding read
read_lem d offset n pos some_n inside =
    let m : ℕ = k_min n (d.size_in_bytes - offset) in
    let small = k_min-le n (d.size_in_bytes - offset) in
    let (k, e, k_pos, k_le) =
      read_part_lem d offset m pos (k_min_pos n _ some_n (omega arith)) (omega (arith, small.1)) in
    (
      k,
      rw (le→ltb d.size_in_bytes offset (omega arith), ne→== offset d.size_in_bytes (omega arith))
          e,
      k_pos,
      omega (arith, small.0),
      omega (arith, small.1),
    )

read-end : (d : Device) (n : ℕ) → read d d.size_in_bytes n ≡ some (got [])
unfolding read
read-end d n = ground arith

read-past : (d : Device) (offset n : ℕ) → d.size_in_bytes < offset → read d offset n ≡ some error
unfolding read
read-past d offset n h = rw (lt→ltb d.size_in_bytes offset h)

-- A round that read something goes on.
round_more :
    (total : List ℕ) (more : List ℕ → Option Read) (xs : List ℕ)
    → 0 < length xs
    → read_round total more (some (got xs)) ≡ more xs
unfolding read_round
round_more total more [] h = absurd (omega arith)
round_more total more (x ∷ xs) h = refl

min_zero : (m : ℕ) → min 0 m ≡ 0
min_zero m = ground arith

whole_part :
    (n k x size : ℕ) → k ≤ n → x + k ≤ size → k + min (n - k) (size - (x + k)) ≡ min n (size - x)
whole_part n k x size h h' = ground arith

nothing_left : (n m : ℕ) → min n (m - m) ≡ 0
nothing_left n m = ground arith

-- The loop adds to the bytes that it has what is left of the contents, as far as it was asked for.
read_loop_lem :
    (fuel : ℕ) (d : Device) (offset n : ℕ) (total : List ℕ)
    → IsReadable d
    → offset ≤ d.size_in_bytes
    → n < fuel
    → read_loop fuel d offset n total
      ≡ some (got (total ++ slice (content d) offset (min n (d.size_in_bytes - offset))))
unfolding read_loop slice read_round
read_loop_lem zero d offset n total pos inside enough = absurd (omega arith)
read_loop_lem (suc fuel) d offset n total pos inside enough = elim (Bool-cases (n == 0)) [
  | inl done ↦
      rw (done, ==→eq n 0 done, min_zero (d.size_in_bytes - offset))
        (ap (λ b. some (got b)) (sym (append-nil total)))
  | inr some_n ↦ elim (Bool-cases (offset == d.size_in_bytes)) [
    | inl at_end ↦
        rw
          (
            some_n,
            ==→eq offset d.size_in_bytes at_end,
            read-end d n,
            nothing_left n d.size_in_bytes,
          )
          (ap (λ b. some (got b)) (sym (append-nil total)))
    | inr before ↦
        let (k, e, k_pos, k_le, k_in) =
          read_lem d offset n pos (positive (==→ne n 0 some_n))
            (inner (==→ne offset d.size_in_bytes before)) in
        rw (some_n, e, more k k_pos, length-slice (content d) offset k)
          (read_loop_lem fuel d (offset + k) (n - k) (total ++ slice (content d) offset k) pos k_in
              (omega arith)
            ∙ ap (λ b. some (got b)) (joined k k_le k_in))
  ]
]
  where
    more :
        (k : ℕ)
        → 0 < k
        → read_round total
            (λ xs. read_loop fuel d (offset + length xs) (n - length xs) (total ++ xs))
            (some (got (slice (content d) offset k)))
          ≡ read_loop fuel d
              (offset + length (slice (content d) offset k))
              (n - length (slice (content d) offset k))
              (total ++ slice (content d) offset k)
    more k k_pos =
        round_more total (λ xs. read_loop fuel d (offset + length xs) (n - length xs) (total ++ xs))
          (slice (content d) offset k)
          (subst (λ m. 0 < m) (sym (length-slice (content d) offset k)) k_pos)

    positive : n ≢ 0 → 0 < n
    positive h = omega (arith, h)

    joined :
        (k : ℕ)
        → k ≤ n
        → offset + k ≤ d.size_in_bytes
        → (total ++ slice (content d) offset k)
            ++ slice (content d) (offset + k) (min (n - k) (d.size_in_bytes - (offset + k)))
          ≡ total ++ slice (content d) offset (min n (d.size_in_bytes - offset))
    joined k k_le k_in =
        append_assoc total _ _
        ∙ ap (λ r. total ++ r)
            (slice-append (content d) offset k _
              ∙ ap (slice (content d) offset) (whole_part n k offset d.size_in_bytes k_le k_in))

    inner : offset ≢ d.size_in_bytes → offset < d.size_in_bytes
    inner h = omega (arith, h)

-- From an offset up to the end of a device whose blocks are not empty and can be read, read_all gives the bytes of the
-- contents from the offset on, as many as were asked for or as there are: it returns, and fails no
-- assertion.
pub read_all_lem :
    (d : Device) (offset n : ℕ)
    → IsReadable d
    → offset ≤ d.size_in_bytes
    → read_all d offset n ≡ some (got (slice (content d) offset (min n (d.size_in_bytes - offset))))
unfolding read_all
read_all_lem d offset n pos inside = read_loop_lem (suc n) d offset n [] pos inside (omega arith)

round_past :
    (fuel : ℕ) (d : Device) (offset n : ℕ)
    → d.size_in_bytes < offset
    → 0 < n
    → read_loop (suc fuel) d offset n [] ≡ some error
unfolding read_loop read_round
round_past fuel d offset n past some_n = rw (ne→== n 0 (omega arith), read-past d offset n past)

-- Past the end of a device a request for at least one byte is an error.
pub read_all_past :
    (d : Device) (offset n : ℕ)
    → d.size_in_bytes < offset
    → 0 < n
    → read_all d offset n ≡ some error
unfolding read_all
read_all_past d offset n past some_n = round_past n d offset n past some_n
