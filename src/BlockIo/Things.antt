-- ===== src/BlockIo/Things.antt =====
-- Reads of things of a fixed size.
use simplified_os_kernel.Prelude.{
  ℕ, ◌+◌, ◌-◌, ◌≤◌, ◌<◌, ◌≡◌, refl, arith, none, some, [], length, min, inl, inr, Bool-cases, ltb,
  ltb→lt, ltb→le, zero, suc, eq→==, ne→==, false, ◌==◌,
}
use simplified_os_kernel.BlockIo.{
  IsReadable, Device, Read, error, got, slice, read_all, read_loop, counted, read_thing,
}
use simplified_os_kernel.BlockIo.Slice.{content, length-slice}
use simplified_os_kernel.BlockIo.ReadAll.{read_all_lem, read_all_past}

-- A device answers every request, be it with an error.
pub read_all_answers :
    (d : Device) (offset n : ℕ) → IsReadable d → (bytes : Read) × (read_all d offset n ≡ some bytes)
unfolding read_all read_loop
read_all_answers d offset zero pos = (got [], refl)
read_all_answers d offset (suc n) pos = elim (Bool-cases (ltb d.size_in_bytes offset)) [
  | inl past ↦
      (error, read_all_past d offset (suc n) (ltb→lt d.size_in_bytes offset past) (omega arith))
  | inr inside ↦ (_, read_all_lem d offset (suc n) pos (ltb→le d.size_in_bytes offset inside))
]

-- A thing that lies on the device is read.
pub read_thing_lem :
    (d : Device) (offset n : ℕ)
    → IsReadable d
    → offset + n ≤ d.size_in_bytes
    → read_thing d offset n ≡ some (slice (content d) offset n)
unfolding read_thing counted
read_thing_lem d offset n pos inside =
    rw
      (
        read_all_lem d offset n pos (omega arith),
        whole,
        eq→== (length (slice (content d) offset n)) n (length-slice (content d) offset n),
      )
      refl
  where
    whole : min n (d.size_in_bytes - offset) ≡ n
    whole = omega arith

-- The assertion fails for one that does not.
pub read_thing_outside :
    (d : Device) (offset n : ℕ)
    → IsReadable d
    → 0 < n
    → d.size_in_bytes < offset + n
    → read_thing d offset n ≡ none
unfolding read_thing counted
read_thing_outside d offset n pos some_n out = elim (Bool-cases (ltb d.size_in_bytes offset)) [
  | inl past ↦ rw (read_all_past d offset n (ltb→lt d.size_in_bytes offset past) some_n) refl
  | inr inside ↦
      rw
        (
          read_all_lem d offset n pos (ltb→le d.size_in_bytes offset inside),
          few (ltb→le d.size_in_bytes offset inside),
        )
        refl
]
  where
    few :
        offset ≤ d.size_in_bytes
        → (length (slice (content d) offset (min n (d.size_in_bytes - offset))) == n) ≡ false
    few inside =
        ne→== _ n (
          omega (arith, length-slice (content d) offset (min n (d.size_in_bytes - offset)), inside))
