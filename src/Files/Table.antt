-- ===== src/Files/Table.antt =====
-- open, close and dup: the lowest free descriptor is taken, and every count stays right.
use simplified_os_kernel.BlockIo.{IsReadable}
use simplified_os_kernel.Prelude.{
  ℕ, ◌+◌, ◌≤◌, ◌<◌, ◌≡◌, refl, ap, ◌∙◌, arith, true, false, none, some, length, length-set, set,
  ◌⊎◌, inl, inr,
}
use simplified_os_kernel.Prelude.Words.{minus_one, u32_mod}
use simplified_os_kernel.Shared.{Shared}
use simplified_os_kernel.Shared.Contents.{Always}
use simplified_os_kernel.Handles.{Handles, is_null, pointer, is_bad, assign_new, assign_copy}
use simplified_os_kernel.Handles.Laws.{
  Good, assign_new-Good, assign_copy-Good, clear-Good, is_bad_cases,
}
use simplified_os_kernel.Handles.Seek.{seek_lem}
use simplified_os_kernel.Handles.Contents.{clear-Always, assign_new-Always, assign_copy-Always}
use simplified_os_kernel.Files.{
  Node, FileDescriptor, Files, returns, finish, opened, open_at, sys_open, close, dup_at, dup,
}

-- The blocks of a file can be read, the offset is not past its end, and its size is a uint32_t.
abbrev pub Within : ℕ → Node → Type 0
Within offset node =
    IsReadable node.device
    × (offset ≤ node.device.size_in_bytes)
    × (node.device.size_in_bytes < u32_mod)

-- A descriptor is that of a file or a directory, or of a pipe that there is, or of something not readable.
abbrev pub Sound : ℕ → ℕ → FileDescriptor → Type 0
Sound pipes_n p d = elim (d.vnode) [
  | some node ↦ Within d.offset node × (d.pipe ≡ none)
  | none ↦ (d.readable ≡ false) ⊎ ((q : ℕ) × (d.pipe ≡ some q) × (q < pipes_n))
]

pub record IsOk (st : Files) : Type 0 where
  pub good : Good st.handles
  pub sound : Always (Sound (length st.pipes)) st.handles.store

-- A call came to its end: the state is fine, and every array is still there.
pub record Ended (st st' : Files) : Type 0 where
  pub ok : IsOk st'
  pub cells : length st.handles.cells ≤ length st'.handles.cells

-- Where a call put a pointer: the lowest free place `i`.
pub record Placed (base : ℕ) (st : Files) (i : ℕ) (p : Shared) (st' : Files) : Type 0 where
  pub ended : Ended st st'
  pub small : i < 10
  pub free : pointer st.handles (base + i) ≡ none
  pub lowest : (j : ℕ) → j < i → is_null (pointer st.handles (base + j)) ≡ false
  pub cells : st'.handles.cells ≡ set st.handles.cells (base + i) p

-- All places are taken.
abbrev pub IsFull : ℕ → Files → Type 0
IsFull base st = (j : ℕ) → j < 10 → is_null (pointer st.handles (base + j)) ≡ false

opened-Sound : (pipes_n p : ℕ) (node : Node) → Within 0 node → Sound pipes_n p (opened node)
unfolding opened
opened-Sound pipes_n p node fits = (fits, refl)

no_place :
    (base : ℕ) (node : Node) (st : Files) → open_at base node st none ≡ some (returns minus_one, st)
unfolding open_at
no_place base node st = refl

placed :
    (base : ℕ) (node : Node) (st : Files) (i : ℕ) (h : Handles FileDescriptor)
    → assign_new (opened node) st.handles (base + i) ≡ some h
    → open_at base node st (some i) ≡ some (returns i, record st { handles = h })
unfolding open_at
placed base node st i h e = ap (finish (returns i) st) e

-- On right counts, for a process whose array is there and a node of a size below 2^32, with blocks that can be read: open returns
-- -1 and changes nothing when the ten descriptors are taken; otherwise it returns the lowest, which
-- gets a new descriptor of the node at offset 0.
pub open_lem :
    (base : ℕ) (node : Node) (st : Files)
    → IsOk st
    → Within 0 node
    → base + 10 ≤ length st.handles.cells
    → ((sys_open base (some node) st ≡ some (returns minus_one, st)) × IsFull base st)
      ⊎ ((i : ℕ) × (st' : Files) × (sys_open base (some node) st ≡ some (returns i, st'))
          × Placed base st i (some st.handles.store.next_name) st'
          × (st'.handles.store.object st.handles.store.next_name
              ≡ some (record { content = opened node; ref_count = 1 })))
unfolding sys_open
open_lem base node st ok fits room = elim (seek_lem st.handles base 0 10) [
  | inl (e, full) ↦ inl (
    ap (open_at base node st) e ∙ no_place base node st,
    λ j b. full j (omega arith) (omega (arith, b)),
  )
  | inr (i, e, lo, hi, null, all) ↦
      let (h, e', g, w, o) =
        assign_new-Good (opened node) st.handles (base + i) ok.good (omega arith) in
      inr (
        i,
        record st { handles = h },
        ap (open_at base node st) e ∙ placed base node st i h e',
        record {
          ended = record {
            ok = record {
              good = g;
              sound =
                  assign_new-Always (Sound (length st.pipes)) _ _ h _ e'
                    (opened-Sound _ st.handles.store.next_name node fits) ok.sound;
            };
            cells = omega (arith, ap length w, length-set st.handles.cells (base + i) _);
          };
          small = omega arith;
          free = null;
          lowest = λ j b. all j (omega arith) b;
          cells = w;
        },
        o,
      )
]

-- On right counts, for a process whose array is there: close of a number that is not that of an open
-- descriptor returns -1 and changes nothing; any other close clears the pointer and no other,
-- returns 0, and leaves every count right.
pub close_lem :
    (base fd : ℕ) (st : Files)
    → IsOk st
    → base + 10 ≤ length st.handles.cells
    → ((is_bad st.handles base 10 fd ≡ true) × (close base fd st ≡ some (returns minus_one, st)))
      ⊎ ((st' : Files) × (close base fd st ≡ some (returns 0, st'))
          × Ended st st'
          × (st'.handles.cells ≡ set st.handles.cells (base + fd) none))
unfolding close
close_lem base fd st ok room = elim (is_bad_cases st.handles base 10 fd) [
  | inl bad ↦ inl (bad, rw bad refl)
  | inr (valid, small, _) ↦
      let (h, e, g, w) = clear-Good st.handles (base + fd) ok.good (omega arith) in
      inr (
        record st { handles = h },
        rw (valid, e) refl,
        record {
          ok = record { good = g; sound = clear-Always (Sound (length st.pipes)) _ h _ e ok.sound };
          cells = omega (arith, ap length w, length-set st.handles.cells (base + fd) none);
        },
        w,
      )
]

no_dup : (base fd : ℕ) (st : Files) → dup_at base fd st none ≡ some (returns minus_one, st)
unfolding dup_at
no_dup base fd st = refl

dup_placed :
    (base fd : ℕ) (st : Files) (i : ℕ) (h : Handles FileDescriptor)
    → assign_copy st.handles (base + i) (base + fd) ≡ some h
    → dup_at base fd st (some i) ≡ some (returns i, record st { handles = h })
unfolding dup_at
dup_placed base fd st i h e = ap (finish (returns i) st) e

-- On right counts, for a process whose array is there: dup of a number that is not that of an open
-- descriptor returns -1 and changes nothing, as it does when the ten descriptors are taken;
-- otherwise it returns the lowest free one, whose pointer becomes that of fd, so that both share one
-- descriptor and its offset.
pub dup_lem :
    (base fd : ℕ) (st : Files)
    → IsOk st
    → base + 10 ≤ length st.handles.cells
    → (((is_bad st.handles base 10 fd ≡ true) ⊎ IsFull base st)
        × (dup base fd st ≡ some (returns minus_one, st)))
      ⊎ ((i : ℕ) × (st' : Files) × (dup base fd st ≡ some (returns i, st'))
          × Placed base st i (pointer st.handles (base + fd)) st')
unfolding dup
dup_lem base fd st ok room = elim (is_bad_cases st.handles base 10 fd) [
  | inl bad ↦ inl (inl bad, rw bad refl)
  | inr (valid, small, _) ↦ elim (seek_lem st.handles base 0 10) [
    | inl (e, full) ↦ inl (
      inr (λ j b. full j (omega arith) (omega (arith, b))),
      rw valid (ap (dup_at base fd st) e ∙ no_dup base fd st),
    )
    | inr (i, e, lo, hi, null, all) ↦
        let (h, e', g, w) =
          assign_copy-Good st.handles (base + i) (base + fd) ok.good (omega arith) (omega arith) in
        inr (
          i,
          record st { handles = h },
          rw valid (ap (dup_at base fd st) e ∙ dup_placed base fd st i h e'),
          record {
            ended = record {
              ok = record {
                good = g;
                sound = assign_copy-Always (Sound (length st.pipes)) _ h _ _ e' ok.sound;
              };
              cells = omega (arith, ap length w, length-set st.handles.cells (base + i) _);
            };
            small = omega arith;
            free = null;
            lowest = λ j b. all j (omega arith) b;
            cells = w;
          },
        )
  ]
]
