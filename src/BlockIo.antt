-- ===== src/BlockIo.antt =====
-- kernel/block_io.h and kernel/block_io.cc: reading bytes from things that are read in blocks (the
-- disk, the files and directories on it). A device is its `block_size`, its `size_in_bytes` and its
-- `read_block`, which fails for a block whose assertions do not pass; what a call puts into the caller's buffer is the list of bytes of its result. `none` is a
-- failed ASSERT, or the end of the fuel of `read_all`.
pub mod Slice
pub mod ReadAll
pub mod Things
mod Tests
use simplified_os_kernel.Prelude.{
  ℕ, zero, suc, ◌+◌, ◌-◌, ◌/◌, ◌%◌, Bool, true, false, Option, none, some, List, [], ◌∷◌, ◌++◌, ltb,
  leb, ◌==◌, if◌then◌else◌, length, ◌>>=◌, ◌*◌, ◌<◌, ◌≡◌,
}
use simplified_os_kernel.Prelude.Words.{add32, sub32}

pub record Device : Type 0 where
  pub block_size : ℕ
  pub size_in_bytes : ℕ
  -- whether `read_block` of a block passes its assertions and does not panic
  pub reads : ℕ → Bool
  -- the byte at a place of a block that is read
  pub read_block : ℕ → ℕ → ℕ

-- What a caller of a device relies on: its blocks are not empty, and each that starts before its end is read.
pub record IsReadable (d : Device) : Type 0 where
  pub some_block : 0 < d.block_size
  pub all_read : (b : ℕ) → b * d.block_size < d.size_in_bytes → d.reads b ≡ true

-- -1, or as many bytes as the list has.
pub data Read : Type 0 where
  error : Read
  got : List ℕ → Read

unfoldable pub size_in_blocks : Device → ℕ
size_in_blocks d = sub32 (add32 d.size_in_bytes d.block_size) 1 / d.block_size

-- `K::min`.
unfoldable pub k_min : ℕ → ℕ → ℕ
k_min a rest = if ltb a rest then a else rest

-- `n` bytes from place `i` on.
unfoldable pub slice : (ℕ → ℕ) → ℕ → ℕ → List ℕ
slice f i zero = []
slice f i (suc n) = f i ∷ slice f (i + 1) n

abbrev pub assert {ℓ} : {A : Type ℓ} → Bool → Option A → Option A
assert true r = r
assert false r = none

unfoldable pub read_part : Device → ℕ → ℕ → Option Read
read_part d offset n =
    let block_number = offset / d.block_size in
    let offset_in_block = offset % d.block_size in
    let actual_n = k_min (d.block_size - offset_in_block) n in
    assert (leb actual_n n) (
      assert (leb (offset + actual_n) d.size_in_bytes) (
        if actual_n == d.block_size
        then assert (offset_in_block == 0) (
            assert (d.reads block_number)
              (some (got (slice (d.read_block block_number) 0 actual_n))))
        else assert (leb (offset_in_block + actual_n) d.block_size) (
            assert (d.reads block_number)
              (some (got (slice (d.read_block block_number) offset_in_block actual_n))))))

unfoldable pub read : Device → ℕ → ℕ → Option Read
read d offset desired_n =
    if ltb d.size_in_bytes offset
    then some error
    else if offset == d.size_in_bytes
    then some (got [])
    else read_part d offset (k_min desired_n (d.size_in_bytes - offset))

-- What a round makes of the result of `read`: `more xs` goes on after the bytes `xs`.
unfoldable pub read_round : List ℕ → (List ℕ → Option Read) → Option Read → Option Read
read_round total more none = none
read_round total more (some error) = some error
read_round total more (some (got [])) = some (got total)
read_round total more (some (got (x ∷ xs))) = more (x ∷ xs)

-- `total` holds the bytes read so far.
unfoldable pub read_loop : ℕ → Device → ℕ → ℕ → List ℕ → Option Read
read_loop zero d offset n total = none
read_loop (suc fuel) d offset n total =
    let round =
      read_round total (λ xs. read_loop fuel d (offset + length xs) (n - length xs) (total ++ xs))
        (read d offset n) in
    if n == 0 then some (got total) else round

-- Each round but the last reads a byte at least.
unfoldable pub read_all : Device → ℕ → ℕ → Option Read
read_all d offset n = read_loop (suc n) d offset n []

-- What the assertion of `read` makes of the result of read_all.
unfoldable pub counted : ℕ → Read → Option (List ℕ)
counted n error = none
counted n (got bytes) = if length bytes == n then some bytes else none

-- `read` of a thing of `n` bytes: these bytes.
unfoldable pub read_thing : Device → ℕ → ℕ → Option (List ℕ)
read_thing d offset n = read_all d offset n >>= counted n

-- The fields of a thing: its bytes, the lowest first.
abbrev pub u8 : List ℕ → ℕ → ℕ
u8 [] i = 0
u8 (b ∷ bytes) zero = b
u8 (b ∷ bytes) (suc i) = u8 bytes i

abbrev pub u16 : List ℕ → ℕ → ℕ
u16 bytes i = u8 bytes i + 256 * u8 bytes (i + 1)

abbrev pub u32 : List ℕ → ℕ → ℕ
u32 bytes i = u16 bytes i + 65536 * u16 bytes (i + 2)
