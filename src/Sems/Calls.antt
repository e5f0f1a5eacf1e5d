-- ===== src/Sems/Calls.antt =====
-- The semaphore calls fail no assertion, use no deleted object, and keep every count right.
use simplified_os_kernel.Prelude.{
  ℕ, ◌+◌, ◌≤◌, ◌<◌, ◌≡◌, refl, ap, ◌∙◌, arith, true, false, none, some, length, length-set, set,
  ◌⊎◌, inl, inr,
}
use simplified_os_kernel.Prelude.Words.{minus_one}
use simplified_os_kernel.Semaphore
use simplified_os_kernel.Semaphore.{Semaphore, down, up}
use simplified_os_kernel.Semaphore.Fifo.{IsFair}
use simplified_os_kernel.Shared.Contents.{Always}
use simplified_os_kernel.Handles.{is_null, pointer, is_bad}
use simplified_os_kernel.Handles.Laws.{is_bad_cases, Good, assign_new-Good, clear-Good}
use simplified_os_kernel.Handles.Seek.{seek_lem}
use simplified_os_kernel.Handles.Contents.{clear-Always, assign_new-Always}
use simplified_os_kernel.Sems.{Sems, Outcome, returns, finish, sem_at, sem, sem_close}

abbrev pub Quiet : ℕ → Semaphore ℕ → Type 0
Quiet p s = IsFair s

-- Right counts, and semaphores that nobody waits for while their count is positive.
pub record IsOk (st : Sems) : Type 0 where
  pub good : Good st.handles
  pub fair : Always Quiet st.handles.store

-- A call came to its end: the state is fine, and every array is still there.
pub record Ended (st : Sems) (r : Outcome × Sems) : Type 0 where
  pub ok : IsOk r.1
  pub cells : length st.handles.cells ≤ length r.1.handles.cells

-- Where `sem` made semaphore `i`: it is the lowest free one, and it counts `n`; the others are as they were.
pub record Made (base n : ℕ) (st : Sems) (i : ℕ) (st' : Sems) : Type 0 where
  pub ended : Ended st (returns i, st')
  pub small : i < 100
  pub free : pointer st.handles (base + i) ≡ none
  pub lowest : (j : ℕ) → j < i → is_null (pointer st.handles (base + j)) ≡ false
  pub cells : st'.handles.cells ≡ set st.handles.cells (base + i) (some st.handles.store.next_name)
  pub object :
      st'.handles.store.object st.handles.store.next_name
      ≡ some (record { content = Semaphore.make n; ref_count = 1 })

make-IsFair : (n : ℕ) → IsFair {E = ℕ} (Semaphore.make n)
unfolding Semaphore.make
make-IsFair n = inl refl

-- For a process whose array is there, on right counts and fair semaphores: sem(n) returns -1 and
-- changes nothing when all the 100 pointers are taken; otherwise it returns the lowest free number,
-- whose pointer gets a new semaphore that counts n, and it leaves every count right.
pub sem_lem :
    (base n : ℕ) (st : Sems)
    → IsOk st
    → base + 100 ≤ length st.handles.cells
    → ((sem base n st ≡ some (returns minus_one, st))
        × ((j : ℕ) → j < 100 → is_null (pointer st.handles (base + j)) ≡ false))
      ⊎ ((i : ℕ) × (st' : Sems) × (sem base n st ≡ some (returns i, st')) × Made base n st i st')
unfolding sem sem_at
sem_lem base n st ok room = elim (seek_lem st.handles base 0 100) [
  | inl (e, full) ↦ inl (rw (e, sem_at) refl, λ j b. full j (omega arith) (omega (arith, b)))
  | inr (i, e, lo, hi, null, all) ↦
      let (h, e', g, w, o) =
        assign_new-Good (Semaphore.make n) st.handles (base + i) ok.good (omega arith) in
      inr (
        i,
        record { handles = h; ready = st.ready },
        ap (sem_at base n st) e ∙ ap (finish (returns i) st.ready) e',
        record {
          ended = record {
            ok = record {
              good = g;
              fair = assign_new-Always Quiet _ _ h _ e' (make-IsFair n) ok.fair;
            };
            cells = omega (
              arith,
              ap length w,
              length-set st.handles.cells (base + i) (some st.handles.store.next_name),
            );
          };
          small = omega arith;
          free = null;
          lowest = λ j b. all j (omega arith) b;
          cells = w;
          object = o;
        },
      )
]

-- For a process whose array is there, on right counts and fair semaphores: sem_close of a number
-- that is not that of a semaphore returns -1 and changes nothing; any other clears the pointer and
-- no other, returns 0, and leaves every count right.
pub sem_close_lem :
    (base i : ℕ) (st : Sems)
    → IsOk st
    → base + 100 ≤ length st.handles.cells
    → ((is_bad st.handles base 100 i ≡ true) × (sem_close base i st ≡ some (returns minus_one, st)))
      ⊎ ((st' : Sems) × (sem_close base i st ≡ some (returns 0, st'))
          × Ended st (returns 0, st')
          × (st'.handles.cells ≡ set st.handles.cells (base + i) none))
unfolding sem_close
sem_close_lem base i st ok room = elim (is_bad_cases st.handles base 100 i) [
  | inl bad ↦ inl (bad, rw bad refl)
  | inr (valid, small, _) ↦
      let (h, e, g, w) = clear-Good st.handles (base + i) ok.good (omega arith) in
      inr (
        record { handles = h; ready = st.ready },
        rw (valid, e) refl,
        record {
          ok = record { good = g; fair = clear-Always Quiet _ h _ e ok.fair };
          cells = omega (arith, ap length w, length-set st.handles.cells (base + i) none);
        },
        w,
      )
]
