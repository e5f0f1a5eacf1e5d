-- ===== src/Vmm/Fault.antt =====
-- One step of the walk that backs an address: an entry filled with a new frame.
use simplified_os_kernel.Prelude.{
  ℕ, ◌+◌, ◌*◌, ◌%◌, ◌≤◌, ◌<◌, ◌≡◌, ◌≢◌, ◌⊎◌, inl, inr, refl, true, false, none, some, List, arith,
  ◌==◌, if◌then◌else◌, Bool-cases,
}
use simplified_os_kernel.PhysMem.{PhysMem}
use simplified_os_kernel.PhysMem.Free.{IsFree, is_frame, is_out, NotIn-word, IsFree-write}
use simplified_os_kernel.PhysMem.Alloc.{HandedOut, alloc_frame_lem}
use simplified_os_kernel.Vmm.{entry, set_entry, present, page_of, fill_entry}
use simplified_os_kernel.Vmm.Space.{present-flags, page_of-flags}
use Prim.Native.Nat.{bit_or}

-- The entry `table[i]` leads to `p`, a frame that was not out; the frame is clear, and no other word
-- changed.
pub record Filled (base : ℕ) (s : PhysMem) (fs : List ℕ) (table i p : ℕ) (s' : PhysMem)
    (fs' : List ℕ) : Type 0 where
  pub free : IsFree base s' fs'
  pub was_in : is_out base s fs p ≡ false
  pub out : (f : ℕ) → is_out base s' fs' f ≡ (if f == p then true else is_out base s fs f)
  pub aligned : p % 4096 ≡ 0
  pub entry_present : present (entry s' table i) ≡ true
  pub entry_page : page_of (entry s' table i) ≡ p
  pub clear : (x : ℕ) → p ≤ x → x < p + 4096 → s'.memory x ≡ 0
  pub rest : (x : ℕ) → x ≢ table + 4 * i → ((x < p) ⊎ (p + 4096 ≤ x)) → s'.memory x ≡ s.memory x

-- Every frame of the range is out.
abbrev pub Full : ℕ → PhysMem → List ℕ → Type 0
Full base s fs = (f : ℕ) → is_frame base s.limit f ≡ is_out base s fs f

-- Every frame of the range is out, but for one at most.
abbrev pub Exhausted : ℕ → PhysMem → List ℕ → Type 0
Exhausted base s fs = (p : ℕ) × ((f : ℕ) → f ≢ p → is_frame base s.limit f ≡ is_out base s fs f)

pub out_frame :
    (base : ℕ) (s : PhysMem) (fs : List ℕ) (f : ℕ)
    → is_out base s fs f ≡ true
    → (f % 4096 ≡ 0) × (base ≤ f) × (f < s.avail)
out_frame base s fs f o = ground arith

-- A word of one frame lies outside another.
pub outside :
    (f p i : ℕ)
    → f % 4096 ≡ 0
    → p % 4096 ≡ 0
    → f ≢ p
    → i < 1024
    → (f + 4 * i < p) ⊎ (p + 4096 ≤ f + 4 * i)
outside f p i a b ne h = omega arith

HandedOut-Filled :
    (base : ℕ) (s : PhysMem) (fs : List ℕ) (table i flags p : ℕ) (s' : PhysMem) (fs' : List ℕ)
    → is_out base s fs table ≡ true
    → i < 1024
    → flags < 4096
    → flags % 2 ≡ 1
    → HandedOut base s fs p s' fs'
    → Filled base s fs table i p (set_entry s' table i (bit_or p flags)) fs'
HandedOut-Filled base s fs table i flags p s' fs' o h lo odd g = record {
  free =
      IsFree-write base s' fs' (table + 4 * i) (bit_or p flags) g.free
        (NotIn-word base s'.avail table i fs' g.free.frames at.0 h (ground (arith, g.out table)));
  was_in = g.was_in;
  out = g.out;
  aligned = g.aligned;
  entry_present = ground (arith, present-flags p flags g.aligned lo odd);
  entry_page = ground (arith, page_of-flags p flags g.aligned lo (omega arith));
  clear = λ x a b. ground (arith, g.clear x, outside table p i at.0 g.aligned other h);
  rest = λ x a b. ground (arith, g.rest x);
}
  where
    at : (table % 4096 ≡ 0) × (base ≤ table) × (table < s.avail)
    at = out_frame base s fs table o

    other : table ≢ p
    other = ground arith

-- An entry that is present is left; else it gets a frame, and the kernel panics only when no frame is
-- left.
pub fill_entry_lem :
    (base : ℕ) (s : PhysMem) (fs : List ℕ) (table i flags : ℕ)
    → IsFree base s fs
    → is_out base s fs table ≡ true
    → i < 1024
    → flags < 4096
    → flags % 2 ≡ 1
    → ((present (entry s table i) ≡ true) × (fill_entry s table i flags ≡ some s))
      ⊎ ((fill_entry s table i flags ≡ none)
          × ((f : ℕ) → is_frame base s.limit f ≡ is_out base s fs f))
      ⊎ ((p : ℕ) × (s' : PhysMem) × (fs' : List ℕ) × (present (entry s table i) ≡ false)
          × (fill_entry s table i flags ≡ some s')
          × (s'.limit ≡ s.limit)
          × Filled base s fs table i p s' fs')
unfolding fill_entry
fill_entry_lem base s fs table i flags r o h lo odd =
    elim (Bool-cases (present (entry s table i))) [
      | inl here ↦ inl (here, rw here refl)
      | inr gone ↦ inr (elim (alloc_frame_lem base s fs r) [
        | inl (e, full) ↦ inl (rw (gone, e) refl, full)
        | inr (p, s', fs', e, g) ↦ inr (
          p,
          set_entry s' table i (bit_or p flags),
          fs',
          gone,
          rw (gone, e) refl,
          g.same_limit,
          HandedOut-Filled base s fs table i flags p s' fs' o h lo odd g,
        )
      ])
    ]
