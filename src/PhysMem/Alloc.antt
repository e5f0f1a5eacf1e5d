-- ===== src/PhysMem/Alloc.antt =====
-- What `alloc_frame` and `dealloc_frame` do to the free list and to the frames that are out.
use simplified_os_kernel.Prelude.{
  ℕ, ◌+◌, ◌%◌, ◌≤◌, ◌<◌, ◌≡◌, ◌≢◌, refl, true, false, none, some, List, [], ◌∷◌, arith, ◌==◌,
  if◌then◌else◌, ◌⊎◌, inl, inr, ne→==, eq→==, subst,
}
use native.Mathlib.Nat.{mod-eq_of_lt}
use native.Mathlib.Decide.{ℕ_discrete}
use simplified_os_kernel.Prelude.Words.{u32_mod}
use simplified_os_kernel.Prelude.Bits.{bit_and-fff}
use simplified_os_kernel.Machine.{Memory, write, bzero}
use simplified_os_kernel.PhysMem.{
  PhysMem, frame_size, offset, init, hand_out, alloc_frame, dealloc_frame,
}
use simplified_os_kernel.PhysMem.Free.{
  IsFree, Chain, NotIn, is_frame, is_out, elem_of_NotIn, NotIn-of_elem, Chain-bzero, Chain-write,
}

-- The allocator has handed out `p`: it was not out before, it is now, no other frame changed sides,
-- the frame is clear, and no word outside it changed.
pub record HandedOut (base : ℕ) (s : PhysMem) (fs : List ℕ) (p : ℕ) (s' : PhysMem) (fs' : List ℕ)
    : Type 0 where
  pub free : IsFree base s' fs'
  pub was_in : is_out base s fs p ≡ false
  pub out : (f : ℕ) → is_out base s' fs' f ≡ (if f == p then true else is_out base s fs f)
  pub aligned : p % 4096 ≡ 0
  pub in_range : (base ≤ p) × (p + frame_size ≤ s.limit)
  pub same_limit : s'.limit ≡ s.limit
  pub clear : (x : ℕ) → p ≤ x → x < p + frame_size → s'.memory x ≡ 0
  pub rest : (x : ℕ) → ((x < p) ⊎ (p + frame_size ≤ x)) → s'.memory x ≡ s.memory x

offset_zero : (p : ℕ) → p % 4096 ≡ 0 → (offset p == 0) ≡ true
unfolding offset
offset_zero p h = eq→== _ 0 (omega (arith, bit_and-fff p))

abbrev reused : PhysMem → ℕ → PhysMem
reused s p = record s { memory = bzero s.memory p frame_size; first_free = s.memory p }

alloc_reused :
    (base : ℕ) (s : PhysMem) (f : ℕ) (fs : List ℕ)
    → IsFree base s (f ∷ fs)
    → (alloc_frame s ≡ some (f, reused s f)) × HandedOut base s (f ∷ fs) f (reused s f) fs
unfolding alloc_frame hand_out
alloc_reused base s f fs i = (
  rw (i.chain.0, ne→== f 0 i.chain.1, offset_zero f (ground arith)),
  record {
    free = record {
      chain =
          Chain-bzero base s.avail f (s.memory f) s.memory fs i.chain.2 i.frames.1 i.distinct.0
            (ground arith);
      frames = i.frames.1;
      distinct = i.distinct.1;
      base_pos = i.base_pos;
      base_aligned = i.base_aligned;
      avail_aligned = i.avail_aligned;
      limit_aligned = i.limit_aligned;
      base-le-avail = i.base-le-avail;
      avail-le-limit = i.avail-le-limit;
      limit-lt = i.limit-lt;
    };
    was_in = ground arith;
    out = λ g. ground (arith, elem_of_NotIn f fs i.distinct.0);
    aligned = ground arith;
    in_range = ground arith;
    same_limit = refl;
    clear = λ x a b. ground arith;
    rest = λ x a. ground arith;
  },
)

abbrev fresh : PhysMem → PhysMem
fresh s = record s { memory = bzero s.memory s.avail frame_size; avail = s.avail + frame_size }

alloc_fresh :
    (base : ℕ) (s : PhysMem)
    → IsFree base s []
    → s.avail < s.limit
    → (alloc_frame s ≡ some (s.avail, fresh s)) × HandedOut base s [] s.avail (fresh s) []
unfolding alloc_frame hand_out
alloc_fresh base s i room = (
  rw (
    i.chain,
    ne→== s.avail s.limit (omega arith),
    offset_zero s.avail i.avail_aligned,
    mod-eq_of_lt below,
  ),
  record {
    free = record {
      chain = i.chain;
      frames = tt;
      distinct = tt;
      base_pos = i.base_pos;
      base_aligned = i.base_aligned;
      avail_aligned = omega arith;
      limit_aligned = i.limit_aligned;
      base-le-avail = omega arith;
      avail-le-limit = omega arith;
      limit-lt = i.limit-lt;
    };
    was_in = ground arith;
    out = λ g. ground arith;
    aligned = i.avail_aligned;
    in_range = ground arith;
    same_limit = refl;
    clear = λ x a b. ground arith;
    rest = λ x a. ground arith;
  },
)
  where
    below : s.avail + frame_size < u32_mod
    below = omega arith

-- `alloc_frame` hands out a frame that was not out, cleared, while a freed frame or an unused one is
-- left, and panics only when every frame of the range is out.
pub alloc_frame_lem :
    (base : ℕ) (s : PhysMem) (fs : List ℕ)
    → IsFree base s fs
    → ((alloc_frame s ≡ none) × ((f : ℕ) → is_frame base s.limit f ≡ is_out base s fs f))
      ⊎ ((p : ℕ) × (s' : PhysMem) × (fs' : List ℕ) × (alloc_frame s ≡ some (p, s'))
          × HandedOut base s fs p s' fs')
unfolding alloc_frame
alloc_frame_lem base s (f ∷ fs) i =
    let got = alloc_reused base s f fs i in inr (f, reused s f, fs, got.0, got.1)
alloc_frame_lem base s [] i = elim (ℕ_discrete s.avail s.limit) [
  | yes full ↦ inl (rw (i.chain, eq→== s.avail s.limit full), λ f. rw full (ground arith))
  | no room ↦
      let got = alloc_fresh base s i (omega (arith, i.avail-le-limit)) in
      inr (s.avail, fresh s, [], got.0, got.1)
]

-- The allocator has taken `p` back: it is out no more, no other frame changed sides, and no word but
-- the first of the frame changed.
pub record TakenBack (base : ℕ) (s : PhysMem) (fs : List ℕ) (p : ℕ) (s' : PhysMem) (fs' : List ℕ)
    : Type 0 where
  pub free : IsFree base s' fs'
  pub out : (f : ℕ) → is_out base s' fs' f ≡ (if f == p then false else is_out base s fs f)
  pub rest : (x : ℕ) → x ≢ p → s'.memory x ≡ s.memory x

abbrev freed : PhysMem → ℕ → PhysMem
freed s p = record s { memory = write s.memory p s.first_free; first_free = p }

-- dealloc_frame of a frame that is out, on a well-formed allocator, succeeds: the allocator stays
-- well-formed, that frame and no other comes in, no word of memory but the first of the frame
-- changes, and the next alloc_frame hands that frame out.
pub dealloc_frame_lem :
    (base p : ℕ) (s : PhysMem) (fs : List ℕ)
    → IsFree base s fs
    → is_out base s fs p ≡ true
    → (s' : PhysMem) × (dealloc_frame s p ≡ some s')
      × TakenBack base s fs p s' (p ∷ fs)
      × ((s'' : PhysMem) × (alloc_frame s' ≡ some (p, s'')))
unfolding dealloc_frame
dealloc_frame_lem base p s fs i o = (
  freed s p,
  rw (offset_zero p (ground arith)),
  back,
  (reused (freed s p) p, (alloc_reused base (freed s p) p fs back.free).0),
)
  where
    new : NotIn p fs
    new = NotIn-of_elem p fs (ground arith)

    back : TakenBack base s fs p (freed s p) (p ∷ fs)
    back = record {
      free = record {
        chain = (
          refl,
          ground arith,
          subst (λ q. Chain (write s.memory p s.first_free) q fs) (ground arith)
              (Chain-write p s.first_free s.first_free s.memory fs i.chain new),
        );
        frames = (ground arith, i.frames);
        distinct = (new, i.distinct);
        base_pos = i.base_pos;
        base_aligned = i.base_aligned;
        avail_aligned = i.avail_aligned;
        limit_aligned = i.limit_aligned;
        base-le-avail = i.base-le-avail;
        avail-le-limit = i.avail-le-limit;
        limit-lt = i.limit-lt;
      };
      out = λ f. ground arith;
      rest = λ x h. ground arith;
    }

-- init on a frame-aligned range that is not at 0 and ends below 2^32 passes its assertions, and
-- makes a well-formed allocator for the range in which no frame is out.
pub init_lem :
    (m : Memory) (start size : ℕ)
    → 0 < start
    → start % 4096 ≡ 0
    → size % 4096 ≡ 0
    → start + size < u32_mod
    → (s : PhysMem) × (init m start size ≡ some s)
      × IsFree start s []
      × (s.limit ≡ start + size)
      × ((f : ℕ) → is_out start s [] f ≡ false)
unfolding init
init_lem m start size pos a b w = (
  record { memory = m; first_free = 0; avail = start; limit = start + size },
  rw (offset_zero start a, offset_zero size b, mod-eq_of_lt w),
  record {
    chain = refl;
    frames = tt;
    distinct = tt;
    base_pos = pos;
    base_aligned = a;
    avail_aligned = a;
    limit_aligned = omega arith;
    base-le-avail = omega arith;
    avail-le-limit = omega arith;
    limit-lt = w;
  },
  refl,
  λ f. ground arith,
)
