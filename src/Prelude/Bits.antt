-- ===== src/Prelude/Bits.antt =====
-- `&` and `|` on machine words with the masks of page tables: the laws at the binary digits, and in
-- steps of three digits at numerals.
use Prim.Native.Nat.{
  ℕ, zero, suc, ◌+◌, ◌*◌, ◌/◌, ◌%◌, ◌^◌, ◌≤◌, ◌<◌, min, max, bit_and, bit_or, digits,
  bit_and-bitwise, bit_or-bitwise,
}
use mathlib.Core.Path.{ap, sym, ◌∙◌, ◌≡◌, refl}
use native.Mathlib.Omega.{arith}

module _ (z : ℕ → ℕ) (f : ℕ → ℕ → ℕ) where
  -- The count of rounds does not matter, once there are as many as the number has digits.
  rounds_irrelevant : (a b k l : ℕ) → a ≤ k → a ≤ l → digits z f k a b ≡ digits z f l a b
  rounds_irrelevant zero b zero zero hk hl = refl
  rounds_irrelevant zero b zero (suc l) hk hl = refl
  rounds_irrelevant zero b (suc k) zero hk hl = refl
  rounds_irrelevant zero b (suc k) (suc l) hk hl = refl
  rounds_irrelevant (suc a) b zero l hk hl = absurd (omega arith)
  rounds_irrelevant (suc a) b (suc k) zero hk hl = absurd (omega arith)
  rounds_irrelevant (suc a) b (suc k) (suc l) hk hl =
      let halves = rounds_irrelevant (suc a / 2) (b / 2) k l (omega arith) (omega arith) in
      ap (λ high. high * 2 + f (suc a % 2) (b % 2)) halves

  -- The lowest digit apart, where the first number has one.
  lowest_digit :
      (a b : ℕ)
      → digits z f (suc a) (suc a) b
        ≡ digits z f (suc a / 2) (suc a / 2) (b / 2) * 2 + f (suc a % 2) (b % 2)
  lowest_digit a b =
      ap (λ high. high * 2 + f (suc a % 2) (b % 2))
        (rounds_irrelevant (suc a / 2) (b / 2) a (suc a / 2) (omega arith) (omega arith))

no_digits_and : (b : ℕ) → bit_and 0 b ≡ 0
no_digits_and = bit_and-bitwise 0

no_digits_or : (b : ℕ) → bit_or 0 b ≡ b
no_digits_or = bit_or-bitwise 0

pub bit_and_halves : (a b : ℕ) → bit_and a b ≡ bit_and (a / 2) (b / 2) * 2 + min (a % 2) (b % 2)
bit_and_halves zero b = omega (arith, no_digits_and (b / 2), no_digits_and b)
bit_and_halves (suc a) b =
    bit_and-bitwise (suc a) b
    ∙ lowest_digit (λ _. 0) min a b
    ∙ ap (λ high. high * 2 + min (suc a % 2) (b % 2)) (sym (bit_and-bitwise (suc a / 2) (b / 2)))

pub bit_or_halves : (a b : ℕ) → bit_or a b ≡ bit_or (a / 2) (b / 2) * 2 + max (a % 2) (b % 2)
bit_or_halves zero b = omega (arith, no_digits_or (b / 2), no_digits_or b)
bit_or_halves (suc a) b =
    bit_or-bitwise (suc a) b
    ∙ lowest_digit (λ d. d) max a b
    ∙ ap (λ high. high * 2 + max (suc a % 2) (b % 2)) (sym (bit_or-bitwise (suc a / 2) (b / 2)))

and_two : (a m : ℕ) → bit_and a (m * 2) ≡ bit_and (a / 2) m * 2
and_two a m =
    omega
      (arith, bit_and_halves a (m * 2), ap (bit_and (a / 2)) {x = m * 2 / 2} {y = m} (omega arith))

and_one : (a m : ℕ) → bit_and a (m * 2 + 1) ≡ bit_and (a / 2) m * 2 + a % 2
and_one a m = omega (
  arith,
  bit_and_halves a (m * 2 + 1),
  ap (bit_and (a / 2)) {x = (m * 2 + 1) / 2} {y = m} (omega arith),
)

or_two : (m b : ℕ) → bit_or (m * 2) b ≡ bit_or m (b / 2) * 2 + b % 2
or_two m b = omega (
  arith,
  bit_or_halves (m * 2) b,
  ap (λ k. bit_or k (b / 2)) {x = m * 2 / 2} {y = m} (omega arith),
)

pub bit_and-zero : (a : ℕ) → bit_and a 0 ≡ 0
bit_and-zero a = loop a a (omega arith)
  where
    loop : (n a : ℕ) → a ≤ n → bit_and a 0 ≡ 0
    loop zero a h =
        omega (arith, ap (λ k. bit_and k 0) {x = a} {y = 0} (omega arith), no_digits_and 0)
    loop (suc n) zero h = no_digits_and 0
    loop (suc n) (suc a) h =
        omega (arith, bit_and_halves (suc a) 0, loop n (suc a / 2) (omega arith))

pub bit_or-zero : (a : ℕ) → bit_or a 0 ≡ a
bit_or-zero a = loop a a (omega arith)
  where
    loop : (n a : ℕ) → a ≤ n → bit_or a 0 ≡ a
    loop zero zero h = no_digits_or 0
    loop zero (suc a) h = absurd (omega arith)
    loop (suc n) zero h = no_digits_or 0
    loop (suc n) (suc a) h =
        omega (arith, bit_or_halves (suc a) 0, loop n (suc a / 2) (omega arith))

-- Sixteen at a time.
and_zeros : (a m : ℕ) → bit_and a (m * 16) ≡ bit_and (a / 16) m * 16
and_zeros a m = omega (
  arith,
  ap (bit_and a) {x = m * 16} {y = m * 2 * 2 * 2 * 2} (omega arith),
  and_two a (m * 2 * 2 * 2),
  and_two (a / 2) (m * 2 * 2),
  and_two (a / 2 / 2) (m * 2),
  and_two (a / 2 / 2 / 2) m,
  ap (λ k. bit_and k m) {x = a / 2 / 2 / 2 / 2} {y = a / 16} (omega arith),
)

and_ones : (a m : ℕ) → bit_and a (m * 16 + 15) ≡ bit_and (a / 16) m * 16 + a % 16
and_ones a m = omega (
  arith,
  ap (bit_and a) {x = m * 16 + 15} {y = (((m * 2 + 1) * 2 + 1) * 2 + 1) * 2 + 1} (omega arith),
  and_one a (((m * 2 + 1) * 2 + 1) * 2 + 1),
  and_one (a / 2) ((m * 2 + 1) * 2 + 1),
  and_one (a / 2 / 2) (m * 2 + 1),
  and_one (a / 2 / 2 / 2) m,
  ap (λ k. bit_and k m) {x = a / 2 / 2 / 2 / 2} {y = a / 16} (omega arith),
)

or_low : (m b : ℕ) → bit_or (m * 16) b ≡ bit_or m (b / 16) * 16 + b % 16
or_low m b = omega (
  arith,
  ap (λ k. bit_or k b) {x = m * 16} {y = m * 2 * 2 * 2 * 2} (omega arith),
  or_two (m * 2 * 2 * 2) b,
  or_two (m * 2 * 2) (b / 2),
  or_two (m * 2) (b / 2 / 2),
  or_two m (b / 2 / 2 / 2),
  ap (bit_or m) {x = b / 2 / 2 / 2 / 2} {y = b / 16} (omega arith),
)

-- x & 1, x & 0x3FF, x & 0xFFF and x & 0xFFFFF000.
pub bit_and-one : (a : ℕ) → bit_and a 1 ≡ a % 2
bit_and-one a = omega (arith, and_one a 0, bit_and-zero (a / 2))

pub bit_and-fff : (a : ℕ) → bit_and a 0xFFF ≡ a % 4096
bit_and-fff a = omega (
  arith,
  and_ones a 0xFF,
  and_ones (a / 16) 0xF,
  and_ones (a / 16 / 16) 0,
  bit_and-zero (a / 16 / 16 / 16),
)

pub bit_and-3ff : (a : ℕ) → bit_and a 0x3FF ≡ a % 1024
bit_and-3ff a = omega (
  arith,
  and_ones a 0x3F,
  and_ones (a / 16) 0x3,
  and_one (a / 16 / 16) 1,
  and_one (a / 16 / 16 / 2) 0,
  bit_and-zero (a / 16 / 16 / 2 / 2),
)

bit_and-fffff : (a : ℕ) → bit_and a 0xFFFFF ≡ a % 1048576
bit_and-fffff a =
    omega (arith, and_ones a 0xFFFF, and_ones (a / 16) 0xFFF, bit_and-fff (a / 16 / 16))

pub bit_and-page : (a : ℕ) → a < 2 ^ 32 → bit_and a 0xFFFFF000 ≡ a / 4096 * 4096
bit_and-page a h = omega (
  arith,
  and_zeros a 0xFFFFF00,
  and_zeros (a / 16) 0xFFFFF0,
  and_zeros (a / 16 / 16) 0xFFFFF,
  bit_and-fffff (a / 16 / 16 / 16),
)

-- Flags in the low twelve bits of a page address.
pub bit_or-page : (m b : ℕ) → b < 4096 → bit_or (m * 4096) b ≡ m * 4096 + b
bit_or-page m b h = omega (
  arith,
  ap (λ k. bit_or k b) {x = m * 4096} {y = m * 16 * 16 * 16} (omega arith),
  or_low (m * 16 * 16) b,
  or_low (m * 16) (b / 16),
  or_low m (b / 16 / 16),
  ap (bit_or m) {x = b / 16 / 16 / 16} {y = 0} (omega arith),
  bit_or-zero m,
)
