-- ===== src/Vme/Fit.antt =====
-- `add_vme`: where a new region goes, and that the order is kept.
use simplified_os_kernel.Prelude.{
  ℕ, ◌+◌, ◌≤◌, ◌<◌, ◌≡◌, refl, ◌⊎◌, inl, inr, Bool, true, false, if◌then◌else◌, ◌&&◌, ◌||◌, [], ◌∷◌,
  ◌++◌, arith, ltb, leb, Bool-cases, ap, ne→==, le→ltb, ◌∙◌,
}
use simplified_os_kernel.Prelude.Words.{u32_mod, add32, user_lo, user_hi}
use native.Mathlib.Nat.{mod-eq_of_lt}
use native.Mathlib.Decide.{dec_le}
use simplified_os_kernel.Vme.{Vme, VmeQueue, new_vme, seek_gap, seek_place, add_vme}
use simplified_os_kernel.Vme.Order.{Sorted, Free, covers}

abbrev pub region : ℕ → ℕ → Vme
region a n = record { start = a; end = a + n; size = n }

-- The walk stops at an address where the region Fits, whatever follows.
seek_gap-Sorted :
    (n s : ℕ) (q : VmeQueue)
    → Sorted s q
    → 0 < n
    → (seek_gap n s q).0 + n < u32_mod
    → Sorted s ((seek_gap n s q).1 ++ (region (seek_gap n s q).0 n ∷ (seek_gap n s q).2))
unfolding seek_gap
seek_gap-Sorted n s [] o pos = λ w. (omega arith, pos, refl, w, tt)
seek_gap-Sorted n s (v ∷ q) o pos = elim (Bool-cases (ltb v.start (add32 s n))) [
  | inl more ↦ rw more (λ w. (o.0, o.1, o.2, o.3, seek_gap-Sorted n v.end q o.4 pos w))
  | inr stop ↦ rw stop (λ w. (omega arith, pos, refl, w, (ground arith, o.1, o.2, o.3, o.4)))
]

-- The walk loses no node.
pub seek_gap-append : (n s : ℕ) (q : VmeQueue) → (seek_gap n s q).1 ++ (seek_gap n s q).2 ≡ q
unfolding seek_gap
seek_gap-append n s [] = refl
seek_gap-append n s (v ∷ q) = ground (arith, seek_gap-append n v.end q)

-- No lower address has room, and the walk does not go back.
seek_gap-least :
    (n s b : ℕ) (q : VmeQueue) → Sorted s q → s ≤ b → Free b n q → (seek_gap n s q).0 ≤ b
unfolding seek_gap
seek_gap-least n s b [] o h f = h
seek_gap-least n s b (v ∷ q) o h f = ground (arith, seek_gap-least n v.end b q)

seek_gap-le : (n s : ℕ) (q : VmeQueue) → Sorted s q → s ≤ (seek_gap n s q).0
unfolding seek_gap
seek_gap-le n s [] o = omega arith
seek_gap-le n s (v ∷ q) o = ground (arith, seek_gap-le n v.end q)

-- With the address given, the new region goes before the first one that starts at its end or later.
seek_place-Sorted :
    (a n lo : ℕ) (q : VmeQueue)
    → Sorted lo q
    → 0 < n
    → lo ≤ a
    → a + n < u32_mod
    → Free a n q
    → Sorted lo ((seek_place (a + n) q).0 ++ (region a n ∷ (seek_place (a + n) q).1))
unfolding seek_place
seek_place-Sorted a n lo [] o pos h w f = (h, pos, refl, w, tt)
seek_place-Sorted a n lo (v ∷ q) o pos h w f = elim (Bool-cases (ltb v.start (a + n))) [
  | inl more ↦
      rw more (o.0, o.1, o.2, o.3, seek_place-Sorted a n v.end q o.4 pos (ground arith) w f.1)
  | inr stop ↦ rw stop (h, pos, refl, w, (ground arith, o.1, o.2, o.3, o.4))
]

pub seek_place-append : (e : ℕ) (q : VmeQueue) → (seek_place e q).0 ++ (seek_place e q).1 ≡ q
unfolding seek_place
seek_place-append e [] = refl
seek_place-append e (v ∷ q) = ground (arith, seek_place-append e q)

-- An address lies in the region `[a, a + n)`.
abbrev pub within : ℕ → ℕ → ℕ → Bool
within a n x = leb a x && ltb x (a + n)

covers_middle :
    (x a n : ℕ) (prev next : VmeQueue)
    → covers (prev ++ (region a n ∷ next)) x ≡ (within a n x || covers (prev ++ next) x)
covers_middle x a n [] next = ground arith
covers_middle x a n (v ∷ prev) next = ground (arith, covers_middle x a n prev next)

-- The outcome of adding `[a, a + n)` to `q`.
pub record Added (lo a n : ℕ) (q : VmeQueue) (r : ℕ × VmeQueue) : Type 0 where
  pub address : r.0 ≡ a
  pub sorted : Sorted lo r.1
  pub contents : (x : ℕ) → covers r.1 x ≡ (within a n x || covers q x)

-- A non-empty region with a given address, not 0, that does not wrap and shares no address with the
-- regions of a queue in order is linked in at that address: the queue stays in order, and covers the
-- addresses of the region beside those that it covered.
pub add_vme-Added :
    (a n lo : ℕ) (q : VmeQueue)
    → Sorted lo q
    → 0 < n
    → 0 < a
    → lo ≤ a
    → a + n < u32_mod
    → Free a n q
    → Added lo a n q (add_vme q (new_vme a n))
unfolding add_vme new_vme
add_vme-Added a n lo q o pos apos h w f =
    rw (ne→== n 0 (omega arith), ne→== a 0 (omega arith), mod-eq_of_lt w)
      record {
        address = refl;
        sorted = seek_place-Sorted a n lo q o pos h w f;
        contents = λ x.
            covers_middle x a n (seek_place (a + n) q).0 (seek_place (a + n) q).1
            ∙ ap (λ p. within a n x || covers p x) (seek_place-append (a + n) q);
      }

-- The walk stops where no region of the queue is in the way.
after-Free : (a n s : ℕ) (q : VmeQueue) → Sorted s q → a + n ≤ s → Free a n q
after-Free a n s [] o h = tt
after-Free a n s (v ∷ q) o h =
    (inl (omega (arith, h, o.0)), after-Free a n v.end q o.4 (omega (arith, h, o.0, o.1, o.2)))

either_branch :
    (b : Bool) (x y : ℕ × VmeQueue × VmeQueue) (n : ℕ) (q : VmeQueue)
    → (b ≡ true → x.0 + n < u32_mod → Free x.0 n q)
    → (b ≡ false → y.0 + n < u32_mod → Free y.0 n q)
    → (if b then x else y).0 + n < u32_mod
    → Free (if b then x else y).0 n q
either_branch true x y n q f g w = f refl w
either_branch false x y n q f g w = g refl w

seek_gap-Free :
    (n s : ℕ) (q : VmeQueue)
    → Sorted s q
    → 0 < n
    → (seek_gap n s q).0 + n < u32_mod
    → Free (seek_gap n s q).0 n q
unfolding seek_gap
seek_gap-Free n s [] o pos = λ w. tt
seek_gap-Free n s (v ∷ q) o pos =
    either_branch (ltb v.start (add32 s n)) _ _ n (v ∷ q)
      (λ more w. (inr (seek_gap-le n v.end q o.4), seek_gap-Free n v.end q o.4 pos w))
      (λ stop w. (
        inl (ground (arith, stop, w)),
        after-Free s n v.end q o.4 (ground (arith, stop, w, o.1, o.2, o.3)),
      ))

-- A new node for `[a, a + n)` stands between the nodes of the queue, which stay, and the address is
-- that of no region of it.
pub record Linked (a n : ℕ) (q : VmeQueue) (r : ℕ × VmeQueue) : Type 0 where
  pub free : Free a n q
  pub prev : VmeQueue
  pub next : VmeQueue
  pub parts : prev ++ next ≡ q
  pub node : r.1 ≡ prev ++ (region a n ∷ next)

-- The first-fit walk ends with room, or with a sum that is past the user range or has wrapped.
abbrev Fits : ℕ → ℕ → Type 0
Fits s n = s + n ≤ user_hi

first_fit_yes :
    (n : ℕ) (q : VmeQueue)
    → Sorted user_lo q
    → 0 < n
    → Fits (seek_gap n user_lo q).0 n
    → Added user_lo (seek_gap n user_lo q).0 n q (add_vme q (new_vme 0 n))
unfolding add_vme new_vme
first_fit_yes n q o pos f =
    rw
      (
        ne→== n 0 (omega arith),
        mod-eq_of_lt w,
        le→ltb user_hi _ f,
        le→ltb (g.0 + n) g.0 (omega arith),
      )
      record {
        address = refl;
        sorted = seek_gap-Sorted n user_lo q o pos w;
        contents = λ x.
            covers_middle x g.0 n g.1 g.2
            ∙ ap (λ p. within g.0 n x || covers p x) (seek_gap-append n user_lo q);
      }
  where
    g : ℕ × VmeQueue × VmeQueue
    g = seek_gap n user_lo q

    w : g.0 + n < u32_mod
    w = omega arith

first_fit-Linked :
    (n : ℕ) (q : VmeQueue)
    → Sorted user_lo q
    → 0 < n
    → Fits (seek_gap n user_lo q).0 n
    → Linked (seek_gap n user_lo q).0 n q (add_vme q (new_vme 0 n))
unfolding add_vme new_vme
first_fit-Linked n q o pos f =
    rw
      (
        ne→== n 0 (omega arith),
        mod-eq_of_lt w,
        le→ltb user_hi _ f,
        le→ltb (g.0 + n) g.0 (omega arith),
      )
      record {
        free = seek_gap-Free n user_lo q o pos w;
        prev = g.1;
        next = g.2;
        parts = seek_gap-append n user_lo q;
        node = refl;
      }
  where
    g : ℕ × VmeQueue × VmeQueue
    g = seek_gap n user_lo q

    w : g.0 + n < u32_mod
    w = omega arith

-- When the walk ends with no room, the queue stays as it was and the call returns 0.
first_fit_no :
    (n : ℕ) (q : VmeQueue)
    → 0 < n
    → n < u32_mod
    → ¬ Fits (seek_gap n user_lo q).0 n
    → (seek_gap n user_lo q).0 < u32_mod
    → add_vme q (new_vme 0 n) ≡ (0, q)
unfolding add_vme new_vme
first_fit_no n q pos w f b = rw (ne→== n 0 (omega arith)) (ground arith)

seek_gap-lt : (n s : ℕ) (q : VmeQueue) → Sorted s q → s < u32_mod → (seek_gap n s q).0 < u32_mod
unfolding seek_gap
seek_gap-lt n s [] o h = h
seek_gap-lt n s (v ∷ q) o h = ground (arith, seek_gap-lt n v.end q)

-- First fit: if some free address `b` of the user range has room for `n` bytes, `add_vme` links in a
-- node for `n` bytes at the address that it returns, which is in the user range, has room, that is,
-- shares no address with a region of the queue, and is not above `b`; the nodes of the queue stay,
-- in order, and just the addresses of the new region are covered beside those covered before.
pub add_vme-first_fit :
    (n b : ℕ) (q : VmeQueue)
    → Sorted user_lo q
    → 0 < n
    → user_lo ≤ b
    → b + n ≤ user_hi
    → Free b n q
    → (a : ℕ) × Added user_lo a n q (add_vme q (new_vme 0 n))
      × Linked a n q (add_vme q (new_vme 0 n))
      × (user_lo ≤ a)
      × (a ≤ b)
      × (a + n ≤ user_hi)
add_vme-first_fit n b q o pos lo hi f = (
  a,
  first_fit_yes n q o pos (omega (arith, below)),
  first_fit-Linked n q o pos (omega (arith, below)),
  seek_gap-le n user_lo q o,
  below,
  omega (arith, below),
)
  where
    a : ℕ
    a = (seek_gap n user_lo q).0

    below : a ≤ b
    below = seek_gap-least n user_lo b q o lo f

-- A request for n bytes, n not 0, with no address, on a queue in order within the user range, either
-- changes nothing and returns 0, or links in a node for n bytes that lies in the user range at the
-- address that it returns and shares no address with a region of the queue; the nodes of the queue
-- stay, in order, and no other address is gained or lost.
pub add_vme-outcome :
    (n : ℕ) (q : VmeQueue)
    → Sorted user_lo q
    → 0 < n
    → n < u32_mod
    → (add_vme q (new_vme 0 n) ≡ (0, q))
      ⊎ ((a : ℕ) × Added user_lo a n q (add_vme q (new_vme 0 n))
          × Linked a n q (add_vme q (new_vme 0 n))
          × (user_lo ≤ a)
          × (a + n ≤ user_hi))
add_vme-outcome n q o pos w = elim (dec_le ((seek_gap n user_lo q).0 + n) user_hi) [
  | yes f ↦ inr (
    (seek_gap n user_lo q).0,
    first_fit_yes n q o pos f,
    first_fit-Linked n q o pos f,
    seek_gap-le n user_lo q o,
    f,
  )
  | no f ↦ inl (first_fit_no n q pos w f (seek_gap-lt n user_lo q o (omega arith)))
]
