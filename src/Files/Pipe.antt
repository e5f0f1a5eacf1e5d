-- ===== src/Files/Pipe.antt =====
-- [1026] pipe of kernel/sys.cc: a new pipe, with its two ends in the lowest two free places.
use simplified_os_kernel.Prelude.{
  ℕ, zero, suc, ◌+◌, ◌≤◌, ◌≡◌, refl, ap, ◌∙◌, arith, Bool, true, false, Option, none, some, [], ◌∷◌,
  ◌++◌, length, ltb, ◌==◌, if◌then◌else◌, Bool-cases, ◌⊎◌, inl, inr, some_inj, ◌>>=◌,
}
use simplified_os_kernel.Prelude.Words.{minus_one}
use simplified_os_kernel.Buffer.{new_buffer}
use simplified_os_kernel.Handles.{Handles, is_null, pointer, assign_new, seek}
use simplified_os_kernel.Files.{FileDescriptor, Files, Outcome, returns, opens}

-- The loop that counts the free places, from `i` on.
unfoldable pub count_free : Handles FileDescriptor → ℕ → ℕ → ℕ → ℕ
count_free h base i zero = 0
count_free h base i (suc left) =
    let rest = count_free h base (i + 1) left in
    if is_null (pointer h (base + i)) then suc rest else rest

unfoldable pub pipe_end : Bool → Bool → ℕ → FileDescriptor
pipe_end readable writable q = record {
  vnode = none;
  offset = 0;
  readable = readable;
  writable = writable;
  pipe = some q;
}

-- A place is free: it takes the end for writing if `*write_fd` is still 20, and the loop goes on; else it takes the end
-- for reading, and the call is done.
unfoldable pub fill_place :
    ℕ
    → ℕ
    → ℕ
    → ℕ
    → Handles FileDescriptor
    → (ℕ → Handles FileDescriptor → Option (Outcome × Handles FileDescriptor))
    → Option (Outcome × Handles FileDescriptor)
fill_place base q i write_fd h next =
    if write_fd == 20
    then (assign_new (pipe_end false true q) h (base + i) >>= next i)
    else (assign_new (pipe_end true false q) h (base + i) >>= λ h'. some (opens write_fd i 0, h'))

-- The second loop, from `i` on.
unfoldable pub fill_places :
    ℕ → ℕ → ℕ → ℕ → ℕ → Handles FileDescriptor → Option (Outcome × Handles FileDescriptor)
fill_places base q i zero write_fd h = some (opens write_fd 20 minus_one, h)
fill_places base q i (suc left) write_fd h =
    let filled = fill_place base q i write_fd h (fill_places base q (i + 1) left) in
    let rest = fill_places base q (i + 1) left write_fd h in
    if is_null (pointer h (base + i)) then filled else rest

unfoldable pub piped : Files → Outcome × Handles FileDescriptor → Option (Outcome × Files)
piped st r = some (r.0, record st { handles = r.1; pipes = st.pipes ++ (new_buffer 100 ∷ []) })

unfoldable pub sys_pipe : ℕ → Files → Option (Outcome × Files)
sys_pipe base st =
    if ltb (count_free st.handles base 0 10) 2
    then some (returns minus_one, st)
    else fill_places base (length st.pipes) 0 10 20 st.handles >>= piped st

-- The count tells how many places the search can find.
pub count_seek :
    (h : Handles FileDescriptor) (base i left : ℕ)
    → ((count_free h base i left ≡ 0) × (seek h base i left ≡ none))
      ⊎ ((k m : ℕ) × (seek h base i left ≡ some k)
          × (i + left ≡ k + 1 + m)
          × (count_free h base i left ≡ suc (count_free h base (k + 1) m)))
unfolding count_free seek
count_seek h base i zero = inl (refl, refl)
count_seek h base i (suc left) = elim (Bool-cases (is_null (pointer h (base + i)))) [
  | inl free ↦ inr (i, left, rw (free) refl, omega arith, rw (free) refl)
  | inr used ↦ elim (count_seek h base (i + 1) left) [
    | inl (few, e) ↦ inl (rw (used) few, rw (used) e)
    | inr (k, m, e, parts, more) ↦ inr (k, m, rw (used) e, omega (arith, parts), rw (used) more)
  ]
]

-- The loop passes over the places that are taken.
pub to_place :
    (base q i left write_fd k m : ℕ) (h : Handles FileDescriptor)
    → seek h base i left ≡ some k
    → i + left ≡ k + 1 + m
    → fill_places base q i left write_fd h
      ≡ fill_place base q k write_fd h (fill_places base q (k + 1) m)
unfolding fill_places seek
to_place base q i zero write_fd k m h e parts = absurd (cc e)
to_place base q i (suc left) write_fd k m h e parts =
    elim (Bool-cases (is_null (pointer h (base + i)))) [
      | inl free ↦ rw (free) (here (some_inj i k (rw (free) at e)))
      | inr used ↦
          rw (used)
            (to_place base q (i + 1) left write_fd k m h (rw (used) at e) (omega (arith, parts)))
    ]
  where
    here :
        i ≡ k
        → fill_place base q i write_fd h (fill_places base q (i + 1) left)
          ≡ fill_place base q k write_fd h (fill_places base q (k + 1) m)
    here same =
        ap (λ n. fill_place base q i write_fd h (fill_places base q (i + 1) n)) {x = left} {y = m}
          (omega (arith, parts, same))
        ∙ ap (λ j. fill_place base q j write_fd h (fill_places base q (j + 1) m)) same

-- A search does not see what is written before its start.
pub seek_after :
    (h h' : Handles FileDescriptor) (base i left : ℕ)
    → ((j : ℕ) → i ≤ j → pointer h' (base + j) ≡ pointer h (base + j))
    → seek h' base i left ≡ seek h base i left
unfolding seek
seek_after h h' base i zero same = refl
seek_after h h' base i (suc left) same =
    rw (same i (omega arith), seek_after h h' base (i + 1) left (λ j b. same j (omega (arith, b))))
      refl
