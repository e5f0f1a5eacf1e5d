-- ===== src/Vme/Order.antt =====
-- The order invariant of a region queue, and what it says of the addresses.
use simplified_os_kernel.Prelude.{
  ℕ, ◌+◌, ◌≤◌, ◌<◌, ◌≡◌, ◌↔◌, ◌⊎◌, Bool, true, false, ◌&&◌, [], ◌∷◌, All, arith, ltb, leb,
  if◌then◌else◌,
}
use simplified_os_kernel.Prelude.Words.{u32_mod}
use simplified_os_kernel.Vme.{VmeQueue, intersects_queue}

-- The regions are non-empty, do not wrap, and follow one another from `lo` on.
abbrev pub Sorted : ℕ → VmeQueue → Type 0
Sorted lo [] = Unit {0}
Sorted lo (v ∷ q) =
    (lo ≤ v.start) × (0 < v.size) × (v.start + v.size ≡ v.end) × (v.end < u32_mod) × Sorted v.end q

-- `[a, a + n)` meets no region.
abbrev pub Free : ℕ → ℕ → VmeQueue → Type 0
Free a n = All (λ v. (a + n ≤ v.start) ⊎ (v.end ≤ a))

-- Some region holds the address.
abbrev pub covers : VmeQueue → ℕ → Bool
covers [] a = false
covers (v ∷ q) a = if leb v.start a && ltb a v.end then true else covers q a

pub Sorted-mono : (lo lo' : ℕ) (q : VmeQueue) → lo' ≤ lo → Sorted lo q → Sorted lo' q
Sorted-mono lo lo' [] h s = tt
Sorted-mono lo lo' (v ∷ q) h s = (omega arith, s.1, s.2, s.3, s.4)

pub covers_below : (lo a : ℕ) (q : VmeQueue) → Sorted lo q → a < lo → covers q a ≡ false
covers_below lo a [] s h = ground arith
covers_below lo a (v ∷ q) s h = ground (arith, covers_below v.end a q)

-- `[a, a + n)` lies below each region with a byte to spare, or above it.
abbrev pub Apart : ℕ → ℕ → VmeQueue → Type 0
Apart a n = All (λ v. (a + n < v.start) ⊎ (v.end ≤ a))

intersects_sound :
    (a n : ℕ) (q : VmeQueue) → a + n < u32_mod → intersects_queue q a n ≡ false → Apart a n q
unfolding intersects_queue
intersects_sound a n [] w h = tt
intersects_sound a n (v ∷ q) w h = ground (arith, intersects_sound a n q)

intersects_complete :
    (a n : ℕ) (q : VmeQueue) → a + n < u32_mod → Apart a n q → intersects_queue q a n ≡ false
unfolding intersects_queue
intersects_complete a n [] w h = ground arith
intersects_complete a n (v ∷ q) w h = ground (arith, intersects_complete a n q)

-- For a region `[a, a + n)` that does not wrap, `intersects_queue` is false exactly when every region of
-- the queue ends at or below `a`, or starts above `a + n`: a region that starts just at `a + n` counts
-- as met, though it shares no address.
pub intersects_queue_iff :
    (a n : ℕ) (q : VmeQueue) → a + n < u32_mod → (intersects_queue q a n ≡ false) ↔ Apart a n q
intersects_queue_iff a n q w = (intersects_sound a n q w, intersects_complete a n q w)

pub Free-of_Apart : (a n : ℕ) (q : VmeQueue) → Apart a n q → Free a n q
Free-of_Apart a n [] h = tt
Free-of_Apart a n (v ∷ q) h = ground (arith, Free-of_Apart a n q)
