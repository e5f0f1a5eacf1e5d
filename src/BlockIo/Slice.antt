-- ===== src/BlockIo/Slice.antt =====
-- Slices of the contents of a device.
use simplified_os_kernel.Prelude.{
  ℕ, zero, suc, ◌+◌, ◌*◌, ◌/◌, ◌%◌, ◌≤◌, ◌<◌, ◌≡◌, refl, ap, sym, ◌∷◌, ◌++◌, arith, length, ap₂,
}
use native.Mathlib.Nat.{div-eq_of_lt-le, div-add-mod', add-zero, zero-add, suc-add, add_assoc}
use simplified_os_kernel.BlockIo.{Device, slice}

-- The byte of the device at an offset.
abbrev pub content : Device → ℕ → ℕ
content d x = d.read_block (x / d.block_size) (x % d.block_size)

pub length-slice : (f : ℕ → ℕ) (i n : ℕ) → length (slice f i n) ≡ n
unfolding slice
length-slice f i zero = refl
length-slice f i (suc n) = ap suc (length-slice f (i + 1) n)

pub slice-append : (f : ℕ → ℕ) (i m n : ℕ) → slice f i m ++ slice f (i + m) n ≡ slice f i (m + n)
unfolding slice
slice-append f i zero n = rw (add-zero i, zero-add n)
slice-append f i (suc m) n =
    rw (suc-add m n) (ap (λ r. f i ∷ r) (rw (shift i m) (slice-append f (i + 1) m n)))
  where
    shift : (i m : ℕ) → i + suc m ≡ i + 1 + m
    shift i m = omega arith

pub slice_cong :
    (f g : ℕ → ℕ) (i j n : ℕ)
    → ((k : ℕ) → k < n → f (i + k) ≡ g (j + k))
    → slice f i n ≡ slice g j n
unfolding slice
slice_cong f g i j zero e = refl
slice_cong f g i j (suc n) e =
    ap₂ (λ x r. x ∷ r) (rw (add-zero i, add-zero j) at (e 0 (omega arith)))
      (slice_cong f g (i + 1) (j + 1) n
        λ k h. rw (add_assoc i 1 k, add_assoc j 1 k) (e (1 + k) (omega arith)))

-- Within a block the number of the block stays, and the place goes up by one each time.
block_of : (b x k : ℕ) → 0 < b → x % b + k < b → ((x + k) / b ≡ x / b) × ((x + k) % b ≡ x % b + k)
block_of b x k pos h = (quotient, remainder)
  where
    parts : x / b * b + x % b ≡ x
    parts = div-add-mod' x b

    next : (x / b + 1) * b ≡ x / b * b + b
    next = omega arith

    quotient : (x + k) / b ≡ x / b
    quotient = div-eq_of_lt-le b (omega (arith, parts)) (omega (arith, parts, next))

    remainder : (x + k) % b ≡ x % b + k
    remainder = omega (arith, parts, div-add-mod' (x + k) b, ap (λ (q : ℕ). q * b) quotient)

-- A part of one block is a part of the contents.
pub slice-block :
    (d : Device) (x n : ℕ)
    → 0 < d.block_size
    → x % d.block_size + n ≤ d.block_size
    → slice (d.read_block (x / d.block_size)) (x % d.block_size) n ≡ slice (content d) x n
slice-block d x n pos h =
    slice_cong _ _ _ _ n
      λ k lt. let (q, r) = block_of d.block_size x k pos (omega arith) in sym (ap₂ d.read_block q r)
