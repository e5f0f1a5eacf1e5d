-- ===== src/PhysMem/Free.antt =====
-- The free list, and the frames that are out.
use simplified_os_kernel.Prelude.{
  ℕ, ◌+◌, ◌*◌, ◌%◌, ◌≤◌, ◌<◌, ◌≡◌, ◌≢◌, refl, Bool, true, false, ◌&&◌, not, List, [], ◌∷◌, All,
  arith, ltb, leb, ◌==◌, if◌then◌else◌,
}
use simplified_os_kernel.Prelude.Words.{u32_mod}
use simplified_os_kernel.Machine.{Memory, write, bzero}
use simplified_os_kernel.PhysMem.{PhysMem, frame_size}

-- From `p` the first words of the frames `fs` lead to the null pointer.
abbrev pub Chain : Memory → ℕ → List ℕ → Type 0
Chain m p [] = p ≡ 0
Chain m p (f ∷ fs) = (p ≡ f) × (f ≢ 0) × Chain m (m f) fs

abbrev pub NotIn : ℕ → List ℕ → Type 0
NotIn f = All (λ g. f ≢ g)

abbrev pub Distinct : List ℕ → Type 0
Distinct [] = Unit {0}
Distinct (f ∷ fs) = NotIn f fs × Distinct fs

abbrev pub elem : ℕ → List ℕ → Bool
elem f [] = false
elem f (g ∷ fs) = if f == g then true else elem f fs

-- A page-aligned address of `[base, avail)`.
abbrev pub is_frame : ℕ → ℕ → ℕ → Bool
is_frame base avail f = leb base f && (ltb f avail && (f % 4096 == 0))

-- `fs` is the free list of an allocator that was initialised at `base`.
pub record IsFree (base : ℕ) (s : PhysMem) (fs : List ℕ) : Type 0 where
  pub chain : Chain s.memory s.first_free fs
  pub frames : All (λ f. is_frame base s.avail f ≡ true) fs
  pub distinct : Distinct fs
  pub base_pos : 0 < base
  pub base_aligned : base % 4096 ≡ 0
  pub avail_aligned : s.avail % 4096 ≡ 0
  pub limit_aligned : s.limit % 4096 ≡ 0
  pub base-le-avail : base ≤ s.avail
  pub avail-le-limit : s.avail ≤ s.limit
  pub limit-lt : s.limit < u32_mod

-- The frame has been handed out and not taken back.
abbrev pub is_out : ℕ → PhysMem → List ℕ → ℕ → Bool
is_out base s fs f = is_frame base s.avail f && not (elem f fs)

pub elem_of_NotIn : (f : ℕ) (fs : List ℕ) → NotIn f fs → elem f fs ≡ false
elem_of_NotIn f [] h = refl
elem_of_NotIn f (g ∷ fs) h = ground (arith, elem_of_NotIn f fs h.1)

pub NotIn-of_elem : (f : ℕ) (fs : List ℕ) → elem f fs ≡ false → NotIn f fs
NotIn-of_elem f [] h = tt
NotIn-of_elem f (g ∷ fs) h = (ground arith, NotIn-of_elem f fs (ground arith))

pub NotIn-above :
    (base avail f : ℕ) (fs : List ℕ)
    → All (λ g. is_frame base avail g ≡ true) fs
    → avail ≤ f
    → NotIn f fs
NotIn-above base avail f [] h p = tt
NotIn-above base avail f (g ∷ fs) h p = (ground arith, NotIn-above base avail f fs h.1 p)

pub frames_mono :
    (base avail avail' : ℕ) (fs : List ℕ)
    → All (λ g. is_frame base avail g ≡ true) fs
    → avail ≤ avail'
    → All (λ g. is_frame base avail' g ≡ true) fs
frames_mono base avail avail' [] h p = tt
frames_mono base avail avail' (g ∷ fs) h p = (ground arith, frames_mono base avail avail' fs h.1 p)

-- Clearing or linking a frame outside the list leaves the list.
pub Chain-bzero :
    (base avail p q : ℕ) (m : Memory) (fs : List ℕ)
    → Chain m q fs
    → All (λ g. is_frame base avail g ≡ true) fs
    → NotIn p fs
    → p % 4096 ≡ 0
    → Chain (bzero m p frame_size) q fs
Chain-bzero base avail p q m [] c h n a = c
Chain-bzero base avail p q m (g ∷ fs) c h n a =
    (c.0, c.1, rw same (Chain-bzero base avail p (m g) m fs c.2 h.1 n.1 a))
  where
    same : bzero m p frame_size g ≡ m g
    same = ground arith

pub Chain-write :
    (p q v : ℕ) (m : Memory) (fs : List ℕ) → Chain m q fs → NotIn p fs → Chain (write m p v) q fs
Chain-write p q v m [] c n = c
Chain-write p q v m (g ∷ fs) c n = (c.0, c.1, rw same (Chain-write p (m g) v m fs c.2 n.1))
  where
    same : write m p v g ≡ m g
    same = ground arith

-- A word of a frame that is out is no free frame.
pub NotIn-word :
    (base avail f i : ℕ) (fs : List ℕ)
    → All (λ g. is_frame base avail g ≡ true) fs
    → f % 4096 ≡ 0
    → i < 1024
    → elem f fs ≡ false
    → NotIn (f + 4 * i) fs
NotIn-word base avail f i [] h a b e = tt
NotIn-word base avail f i (g ∷ fs) h a b e =
    (ground arith, NotIn-word base avail f i fs h.1 a b (ground arith))

-- Writes outside the free frames' links keep the free list.
pub IsFree-write :
    (base : ℕ) (s : PhysMem) (fs : List ℕ) (x v : ℕ)
    → IsFree base s fs
    → NotIn x fs
    → IsFree base (record s { memory = write s.memory x v }) fs
IsFree-write base s fs x v i n = record {
  chain = Chain-write x s.first_free v s.memory fs i.chain n;
  frames = i.frames;
  distinct = i.distinct;
  base_pos = i.base_pos;
  base_aligned = i.base_aligned;
  avail_aligned = i.avail_aligned;
  limit_aligned = i.limit_aligned;
  base-le-avail = i.base-le-avail;
  avail-le-limit = i.avail-le-limit;
  limit-lt = i.limit-lt;
}
