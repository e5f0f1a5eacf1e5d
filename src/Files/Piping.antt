-- ===== src/Files/Piping.antt =====
-- What pipe returns, and what its two descriptors reach.
use simplified_os_kernel.Prelude.{
  ℕ, ◌+◌, ◌≤◌, ◌<◌, ◌≡◌, ◌≢◌, refl, sym, ap, ◌∙◌, arith, true, false, none, some, [], ◌∷◌, ◌++◌,
  length, length-append, length-set, get_elem?, ltb, ◌==◌, Bool-cases, ◌⊎◌, inl, inr, ==→eq, ==→ne,
  lt→ltb, le→ltb, ltb→lt, ltb→le, ◌>>=◌, get_elem?-set_ne,
}
use simplified_os_kernel.Prelude.Words.{minus_one}
use simplified_os_kernel.Shared.{Shared}
use simplified_os_kernel.Shared.Contents.{Always}
use simplified_os_kernel.Buffer.{new_buffer}
use simplified_os_kernel.Handles.{Handles, is_null, or_null, pointer, target}
use simplified_os_kernel.Handles.Seek.{pointer_ne}
use simplified_os_kernel.Handles.Contents.{assign_new-Always}
use simplified_os_kernel.Files.{FileDescriptor, Files, returns, opens}
use simplified_os_kernel.Files.Table.{Sound, IsOk, Ended}
use simplified_os_kernel.Files.Pipe.{count_free, pipe_end, piped, sys_pipe, count_seek}
use simplified_os_kernel.Files.Ends.{
  Assigned, assign_two, place_lem, none_lem, fill_places_lem, end-Sound, grown,
}

-- What pipe leaves: the lower of the two lowest free places is the end for writing of a new, empty
-- pipe of 100 bytes, and the other the end for reading.
pub record Piped (base : ℕ) (st : Files) (w r : ℕ) (st' : Files) : Type 0 where
  pub ended : Ended st st'
  pub order : w < r
  pub small : r < 10
  pub free_w : pointer st.handles (base + w) ≡ none
  pub free_r : pointer st.handles (base + r) ≡ none
  pub lowest : (j : ℕ) → j < r → j ≢ w → is_null (pointer st.handles (base + j)) ≡ false
  pub writes :
      (n : ℕ) × (target st'.handles (pointer st'.handles (base + w))
        ≡ some (n, pipe_end false true (length st.pipes)))
  pub reads :
      (n : ℕ) × (target st'.handles (pointer st'.handles (base + r))
        ≡ some (n, pipe_end true false (length st.pipes)))
  pub others : (k : ℕ) → k ≢ base + w → k ≢ base + r → pointer st'.handles k ≡ pointer st.handles k
  pub pipes : st'.pipes ≡ st.pipes ++ (new_buffer 100 ∷ [])

-- At most one of the ten places is free.
abbrev pub HasOneFree : ℕ → Files → Type 0
HasOneFree base st =
    (j k : ℕ)
    → j < 10
    → k < 10
    → pointer st.handles (base + j) ≡ none
    → pointer st.handles (base + k) ≡ none
    → j ≡ k

free_used : (p : Shared) {A : Type 0} → p ≡ none → is_null p ≡ false → A
free_used p e used = absurd (cc (ap is_null e, used))

-- Where the two ends of the pipe go, the state is as `Piped` tells.
filled_lem :
    (base w r : ℕ) (st : Files) (h' : Handles FileDescriptor)
    → w < r
    → r < 10
    → base + 10 ≤ length st.handles.cells
    → pointer st.handles (base + w) ≡ none
    → pointer st.handles (base + r) ≡ none
    → ((j : ℕ) → j < r → j ≢ w → is_null (pointer st.handles (base + j)) ≡ false)
    → Assigned st.handles
        (base + w)
        (base + r)
        (pipe_end false true (length st.pipes))
        (pipe_end true false (length st.pipes))
        h'
    → Always (Sound (length (st.pipes ++ (new_buffer 100 ∷ [])))) h'.store
    → Piped base st w r (record st { handles = h'; pipes = st.pipes ++ (new_buffer 100 ∷ []) })
filled_lem base w r st h' order small room free_w free_r lowest a sound = record {
  ended = record { ok = record { good = a.good; sound = sound }; cells = omega (arith, size) };
  order = order;
  small = small;
  free_w = free_w;
  free_r = free_r;
  lowest = lowest;
  writes = a.first;
  reads = a.second;
  others = λ k ne ne'.
      ap (λ cs. or_null (get_elem? cs k)) a.cells
      ∙ ap or_null (
          get_elem?-set_ne _ (base + r) k _ (λ e. ne' (sym e))
          ∙ get_elem?-set_ne st.handles.cells (base + w) k _ (λ e. ne (sym e)));
  pipes = refl;
}
  where
    size : length h'.cells ≡ length st.handles.cells
    size = ap length a.cells ∙ length-set _ (base + r) _ ∙ length-set st.handles.cells (base + w) _

-- On right counts, for a process whose array is there: pipe returns -1 and changes nothing when at
-- most one of the ten descriptors is free; otherwise it returns 0, and tells the two lowest free
-- ones, of which the lower reaches the end for writing of a new, empty pipe of 100 bytes, and the
-- other its end for reading; no other pointer changes, and every count stays right.
pub pipe_lem :
    (base : ℕ) (st : Files)
    → IsOk st
    → base + 10 ≤ length st.handles.cells
    → ((sys_pipe base st ≡ some (returns minus_one, st)) × HasOneFree base st)
      ⊎ ((w r : ℕ) × (st' : Files) × (sys_pipe base st ≡ some (opens w r 0, st'))
          × Piped base st w r st')
unfolding sys_pipe piped
pipe_lem base st ok room = elim (count_seek st.handles base 0 10) [
  | inl (none_free, e) ↦ inl (
    rw (lt→ltb (count_free st.handles base 0 10) 2 (omega (arith, none_free))) refl,
    λ j k b b' free free'.
        free_used _ free (none_lem st.handles base 0 10 e j (omega arith) (omega (arith, b))),
  )
  | inr (w, m, e, parts, n) ↦ elim (count_seek st.handles base (w + 1) m) [
    | inl (one_free, e') ↦
        let (_, _, free_w, used_w) = place_lem st.handles base 0 10 w e in
        let only : (j : ℕ) → j < 10 → pointer st.handles (base + j) ≡ none → j ≡ w = λ j b free.
          elim (Bool-cases (ltb j w)) [
            | inl before ↦ free_used _ free (used_w j (omega arith) (ltb→lt j w before))
            | inr from ↦ elim (Bool-cases (j == w)) [
              | inl same ↦ ==→eq j w same
              | inr other ↦ free_used _ free (
                  none_lem st.handles base (w + 1) m e' j
                    (omega (arith, ltb→le j w from, ==→ne j w other)) (omega (arith, b, parts)))
            ]
          ] in
        inl (
          rw (lt→ltb (count_free st.handles base 0 10) 2 (omega (arith, n, one_free))) refl,
          λ j k b b' free free'. only j b free ∙ sym (only k b' free'),
        )
    | inr (r, m', e', parts', n') ↦
        let (_, _, free_w, used_w) = place_lem st.handles base 0 10 w e in
        let (after, below, free_r, used_r) = place_lem st.handles base (w + 1) m r e' in
        let q = length st.pipes in
        let (h₁, h', a, c₁, a', assigned) =
          assign_two st.handles (base + w) (base + r) (pipe_end false true q)
            (pipe_end true false q) ok.good (λ same. omega (arith, same, after))
            (omega (arith, parts, room)) (omega (arith, parts, parts', room)) in
        inr (
          w,
          r,
          record st { handles = h'; pipes = st.pipes ++ (new_buffer 100 ∷ []) },
          rw (le→ltb (count_free st.handles base 0 10) 2 (omega (arith, n, n'))) (
              ap (λ o. o >>= piped st)
                (fill_places_lem base q w m r m' st.handles h₁ h' e (omega (arith, parts)) e' parts'
                  a
                  (λ j b.
                    pointer_ne st.handles h₁ (base + w) (base + j) _ c₁
                      (λ same. omega (arith, same, b)))
                  a')),
          filled_lem base w r st h' (omega (arith, after)) (omega (arith, below, parts)) room free_w
              free_r
              (λ j b ne. elim (Bool-cases (ltb j w)) [
                | inl before ↦ used_w j (omega arith) (ltb→lt j w before)
                | inr from ↦ used_r j (omega (arith, ltb→le j w from, ne)) b
              ])
              assigned
              (assign_new-Always (Sound new_size) _ _ _ _ a'
                (end-Sound new_size q h₁.store.next_name true false fits)
                (assign_new-Always (Sound new_size) _ _ _ _ a
                  (end-Sound new_size q st.handles.store.next_name false true fits)
                  (λ p c live.
                    grown q new_size p c.content (omega (arith, fits)) (ok.sound p c live)))),
        )
  ]
]
  where
    new_size : ℕ
    new_size = length (st.pipes ++ (new_buffer 100 ∷ []))

    fits : length st.pipes < new_size
    fits = omega (arith, length-append st.pipes (new_buffer 100 ∷ []))
