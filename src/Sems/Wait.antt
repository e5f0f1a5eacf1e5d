-- ===== src/Sems/Wait.antt =====
-- `up` and `down` of a process: they do to the semaphore what kernel/semaphore.h does.
use simplified_os_kernel.Prelude.{
  ℕ, ◌+◌, ◌≤◌, ◌<◌, ◌≡◌, refl, ap, ◌∙◌, arith, true, none, some, List, [], ◌∷◌, ◌++◌, length, ◌⊎◌,
  inl, inr,
}
use simplified_os_kernel.Prelude.Words.{minus_one, u32_mod}
use simplified_os_kernel.Semaphore.{Semaphore, down, up}
use simplified_os_kernel.Semaphore.Fifo.{up-IsFair, down-IsFair}
use simplified_os_kernel.Shared.Contents.{Always}
use simplified_os_kernel.Handles.{Handles, pointer, is_bad, clear, hold, set_content}
use simplified_os_kernel.Handles.Laws.{is_bad_cases, clear-Good, set_content-Good}
use simplified_os_kernel.Handles.Contents.{clear-Always}
use simplified_os_kernel.Handles.Local.{
  look, same_cells, local_cells, local_end, Becomes, Local, copied_pointer, changed,
}
use simplified_os_kernel.Sems.{
  Sems, Outcome, returns, waits, finish, up_done, up_object, up_local, sys_up, down_object,
  down_local, sys_down,
}
use simplified_os_kernel.Sems.Calls.{Quiet, IsOk, Ended}

run_up :
    (base i p : ℕ) (st : Sems) (l : Local Quiet st.handles (base + i) p) (r : Semaphore ℕ × List ℕ)
    (h : Handles (Semaphore ℕ))
    → up l.s st.ready ≡ some r
    → clear (set_content l.l p r.0) (length st.handles.cells) ≡ some h
    → up_local (length st.handles.cells) st.ready (hold st.handles (base + i))
      ≡ some (returns 0, record { handles = h; ready = r.1 })
unfolding up_local up_object up_done
run_up base i p st l r h woken e =
    ap (up_local (length st.handles.cells) st.ready) l.held
    ∙ ap (up_object l.l (length st.handles.cells) st.ready) l.reached
    ∙ ap (up_done l.l (length st.handles.cells) p) woken
    ∙ ap (finish (returns 0) r.1) e

run_down :
    (pid base i p : ℕ) (st : Sems) (l : Local Quiet st.handles (base + i) p)
    → down_local pid (length st.handles.cells) st.ready (hold st.handles (base + i))
      ≡ some (
        waits,
        record {
          handles = set_content l.l p (down pid l.s st.ready).0;
          ready = (down pid l.s st.ready).1;
        },
      )
unfolding down_local down_object
run_down pid base i p st l =
    ap (down_local pid (length st.handles.cells) st.ready) l.held
    ∙ ap (down_object pid l.l st.ready) l.reached

-- What a call does to a valid semaphore `p`, which was `s`: the call gives `o`, the semaphore becomes `r.0`, and `r.1` is the ready queue.
pub record Signalled (p : ℕ) (s : Semaphore ℕ) (r : Semaphore ℕ × List ℕ) (st : Sems) (o : Outcome)
    (st' : Sems) : Type 0 where
  pub before : look st.handles p ≡ some s
  pub ended : Ended st (o, st')
  pub ready : st'.ready ≡ r.1
  pub after : Always (Becomes Quiet p r.0 st.handles) st'.handles.store

-- For a process whose array is there, on right counts and with semaphores on which nobody waits while
-- their counts are not 0: up of a number that is not that of a semaphore returns -1 and changes
-- nothing; any other up fails no assertion, does Semaphore::up to the semaphore and to no other,
-- returns 0, leaves every pointer as it was, but for its own local one, which is null again, and
-- every count right.
pub up_lem :
    (base i : ℕ) (st : Sems)
    → IsOk st
    → base + 100 ≤ length st.handles.cells
    → length st.handles.cells + 3 < u32_mod
    → ((is_bad st.handles base 100 i ≡ true) × (sys_up base i st ≡ some (returns minus_one, st)))
      ⊎ ((p : ℕ) × (s : Semaphore ℕ) × (r : Semaphore ℕ × List ℕ) × (st' : Sems) × (pointer
              st.handles
              (base + i)
            ≡ some p)
          × (up s st.ready ≡ some r)
          × (sys_up base i st ≡ some (returns 0, st'))
          × Signalled p s r st (returns 0) st'
          × (st'.handles.cells ≡ st.handles.cells ++ (none ∷ [])))
unfolding sys_up
up_lem base i st ok room few = elim (is_bad_cases st.handles base 100 i) [
  | inl bad ↦ inl (bad, rw bad refl)
  | inr (valid, small, (p, pointed)) ↦
      let l =
        copied_pointer Quiet st.handles (base + i) p ok.good ok.fair (omega arith) few pointed in
      let (r, woken, fair) = up-IsFair l.s st.ready l.was.0 in
      let (h, e, g, w) =
        clear-Good (set_content l.l p r.0) (length st.handles.cells)
          (set_content-Good l.l p r.0 l.good)
          (omega (arith, l.longer, ap length (same_cells l.l p r.0))) in
      let al =
        clear-Always (Becomes Quiet p r.0 st.handles) _ h _ e
          (changed Quiet st.handles (base + i) p l r.0 fair) in
      inr (
        p,
        l.s,
        r,
        record { handles = h; ready = r.1 },
        pointed,
        woken,
        rw valid (run_up base i p st l r h woken e),
        record {
          before = l.was.1;
          ended = record {
            ok = record { good = g; fair = λ q c e'. (al q c e').0 };
            cells = local_end st.handles l.l h p r.0 l.longer w;
          };
          ready = refl;
          after = al;
        },
        local_cells st.handles (set_content l.l p r.0) h (pointer st.handles (base + i))
            (same_cells l.l p r.0 ∙ l.added) w,
      )
]

-- For a process whose array is there, on right counts and with semaphores on which nobody waits while
-- their counts are not 0: down of a number that is not that of a
-- semaphore returns -1 and changes nothing; any other down uses no deleted object, does
-- Semaphore::down to the semaphore and to nothing else, with the process as the event, leaves the
-- process to the event loop, and leaves every count right where the local pointer of the handler,
-- which never ends, counts.
pub down_lem :
    (pid base i : ℕ) (st : Sems)
    → IsOk st
    → base + 100 ≤ length st.handles.cells
    → length st.handles.cells + 3 < u32_mod
    → ((is_bad st.handles base 100 i ≡ true)
        × (sys_down pid base i st ≡ some (returns minus_one, st)))
      ⊎ ((p : ℕ) × (s : Semaphore ℕ) × (st' : Sems) × (pointer st.handles (base + i) ≡ some p)
          × (sys_down pid base i st ≡ some (waits, st'))
          × Signalled p s (down pid s st.ready) st waits st'
          × (st'.handles.cells ≡ st.handles.cells ++ (some p ∷ [])))
unfolding sys_down
down_lem pid base i st ok room few = elim (is_bad_cases st.handles base 100 i) [
  | inl bad ↦ inl (bad, rw bad refl)
  | inr (valid, small, (p, pointed)) ↦
      let l =
        copied_pointer Quiet st.handles (base + i) p ok.good ok.fair (omega arith) few pointed in
      let fair = down-IsFair pid l.s st.ready l.was.0 in
      let t = (down pid l.s st.ready).0 in
      let al = changed Quiet st.handles (base + i) p l t fair in
      inr (
        p,
        l.s,
        record { handles = set_content l.l p t; ready = (down pid l.s st.ready).1 },
        pointed,
        rw valid (run_down pid base i p st l),
        record {
          before = l.was.1;
          ended = record {
            ok = record { good = set_content-Good l.l p t l.good; fair = λ q c e'. (al q c e').0 };
            cells = omega (arith, l.longer, ap length (same_cells l.l p t));
          };
          ready = refl;
          after = al;
        },
        same_cells l.l p t ∙ l.added ∙ ap (λ c. st.handles.cells ++ (c ∷ [])) pointed,
      )
]
