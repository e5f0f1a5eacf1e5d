-- ===== src/Prelude/Words.antt =====
-- uint32_t arithmetic on native numbers: the wrap-around is written out.
use Prim.Native.Nat.{ℕ, ◌+◌, ◌-◌, ◌%◌, ◌^◌}

abbrev pub u32_mod : ℕ
u32_mod = 2 ^ 32

abbrev pub add32 : ℕ → ℕ → ℕ
add32 a b = (a + b) % u32_mod

abbrev pub sub32 : ℕ → ℕ → ℕ
sub32 a b = (a + u32_mod - b) % u32_mod

-- -1 as a uint32_t.
abbrev pub minus_one : ℕ
minus_one = u32_mod - 1

-- The user part of the address space, `[user_lo, user_hi)`.
abbrev pub user_lo : ℕ
user_lo = 0x8000_0000

abbrev pub user_hi : ℕ
user_hi = 0xF000_0000

abbrev pub page_size : ℕ
page_size = 0x1000
