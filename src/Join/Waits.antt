-- ===== src/Join/Waits.antt =====
-- A parent waits for its last child, and gets its status.
use simplified_os_kernel.Prelude.{
  ℕ, ◌<◌, ◌≡◌, refl, ap, ◌∙◌, false, some, arith, List, [], ◌∷◌, ◌++◌, length-append, eq→==, ne→==,
}
use simplified_os_kernel.Prelude.Words.{u32_mod}
use simplified_os_kernel.Semaphore.{make, down, up, wake}
use simplified_os_kernel.Children.{is_childless, remove_child}
use simplified_os_kernel.Children.Stack.{Holds, pop_lem}
use simplified_os_kernel.Future.{Future, new_future, set_value, get_value, run_work, signalled}
use simplified_os_kernel.Join.{
  Family, returned, in_event_loop, put_future, get_exit, wait_for, join, exit_child, resumed,
  run_closure, run_exit,
}

-- Without a child, -1 comes back at once, and nothing changes.
childless_lem :
    (pcb : ℕ) (s : Family) → Holds s.children [] → join pcb s ≡ (returned 0xFFFF_FFFF, s)
unfolding join is_childless
childless_lem pcb s h = rw (eq→== s.children.size 0 h.size) refl

put_self : (child : ℕ) (f : Future) (s : Family) → put_future child f s child ≡ f
put_self child f s = rw (eq→== child child refl) refl

joins :
    (pcb child : ℕ) (s : Family) (xs : List ℕ)
    → Holds s.children (xs ++ (child ∷ []))
    → s.children.size < u32_mod
    → join pcb s ≡ wait_for pcb (some child) s
unfolding join is_childless
joins pcb child s xs h few =
    rw
      (
        ne→== s.children.size 0 (omega (arith, h.size, length-append xs (child ∷ []))),
        (pop_lem child s.children xs h few).0,
      )
      refl

-- The future with the status, and the closure of `pcb` ready to run.
abbrev set_future : ℕ → ℕ → Future
set_future status pcb = record {
  sem = record (make 0) { count = 0 };
  value = status;
  ready = pcb ∷ [];
  log = [];
}

exits :
    (status child : ℕ) (s : Family) (f g : Future)
    → s.exit_future child ≡ f
    → set_value status f ≡ some g
    → exit_child status child s ≡ some (record s { exit_future = put_future child g s })
unfolding exit_child
exits status child s f g e set = rw (e, set) refl

set_waiting :
    (status pcb : ℕ) → set_value status (get_value pcb new_future) ≡ some (set_future status pcb)
unfolding set_value get_value new_future make down up wake signalled
set_waiting status pcb = refl

abbrev settled : ℕ → Future
settled status = record {
  sem = record (make 0) { count = 1 };
  value = status;
  ready = [];
  log = [];
}

set_first : (status : ℕ) → set_value status new_future ≡ some (settled status)
unfolding set_value new_future make up wake signalled
set_first status = refl

get_settled : (status pcb : ℕ) → get_value pcb (settled status) ≡ set_future status pcb
unfolding get_value make down
get_settled status pcb = refl

abbrev left_over : ℕ → ℕ → Future
left_over status pcb = record (settled status) { log = (pcb, status) ∷ [] }

-- The closure runs, with the status.
runs_closure :
    (status pcb child : ℕ) (s : Family)
    → s.exit_future child ≡ set_future status pcb
    → run_exit child s
      ≡ some (
        record { pcb = pcb; eax = status },
        record s {
          children = (remove_child s.children).1;
          exit_future = put_future child (left_over status pcb) s;
        },
      )
unfolding run_exit run_closure run_work up wake signalled resumed make
runs_closure status pcb child s e = rw (e, run_closure, e) refl

-- The parent `pcb` goes on with the status, and the child is gone.
abbrev pub Joined : ℕ → ℕ → ℕ → List ℕ → Family → Type 0
Joined status pcb child xs s =
    (t : Family) × (run_exit child s ≡ some (record { pcb = pcb; eax = status }, t))
    × Holds t.children xs

closure-Joined :
    (status pcb child : ℕ) (xs : List ℕ) (s : Family)
    → s.exit_future child ≡ set_future status pcb
    → Holds (remove_child s.children).1 xs
    → Joined status pcb child xs s
closure-Joined status pcb child xs s e h = (_, runs_closure status pcb child s e, h)

-- The parent waits, and the child exits.
join_first :
    (status pcb child : ℕ) (s : Family) (xs : List ℕ)
    → s.exit_future child ≡ new_future
    → Holds (remove_child s.children).1 xs
    → (s₁ : Family) × (exit_child status child (wait_for pcb (some child) s).1 ≡ some s₁)
      × Joined status pcb child xs s₁
unfolding wait_for get_exit
join_first status pcb child s xs fresh h = (
  record waiting { exit_future = put_future child (set_future status pcb) waiting },
  exits status child waiting (get_value pcb new_future) (set_future status pcb)
      (put_self child (get_value pcb (s.exit_future child)) s ∙ ap (get_value pcb) fresh)
      (set_waiting status pcb),
  closure-Joined status pcb child xs
      (record waiting { exit_future = put_future child (set_future status pcb) waiting })
      (put_self child (set_future status pcb) waiting) h,
)
  where
    waiting : Family
    waiting = record s {
      exit_future = put_future child (get_value pcb (s.exit_future child)) s;
      interrupts = false;
    }

-- The child has exited, and the parent comes.
exit_first :
    (status pcb child : ℕ) (s : Family) (xs : List ℕ)
    → s.exit_future child ≡ settled status
    → Holds (remove_child s.children).1 xs
    → Joined status pcb child xs (wait_for pcb (some child) s).1
unfolding wait_for get_exit
exit_first status pcb child s xs done h =
    closure-Joined status pcb child xs
      (record s {
        exit_future = put_future child (get_value pcb (s.exit_future child)) s;
        interrupts = false;
      })
      (put_self child (get_value pcb (s.exit_future child)) s
        ∙ ap (get_value pcb) done
        ∙ get_settled status pcb)
      h

waits : (pcb child : ℕ) (s : Family) → (wait_for pcb (some child) s).0 ≡ in_event_loop
unfolding wait_for
waits pcb child s = refl

-- For a parent with the children xs and a child after them that has not exited and that nobody waits
-- for: join goes to event_loop, and once the child exits with a status, the closure that is ready
-- makes just that parent go on, with the status in eax, and leaves it the children xs; when the child
-- exits first, the same holds of the join that follows.
pub join_lem :
    (status pcb child : ℕ) (s : Family) (xs : List ℕ)
    → s.children.size < u32_mod
    → s.exit_future child ≡ new_future
    → Holds s.children (xs ++ (child ∷ []))
    → ((join pcb s).0 ≡ in_event_loop)
      × ((s₁ : Family) × (exit_child status child (join pcb s).1 ≡ some s₁)
          × Joined status pcb child xs s₁)
      × ((s₂ : Family) × (exit_child status child s ≡ some s₂)
          × ((join pcb s₂).0 ≡ in_event_loop)
          × Joined status pcb child xs (join pcb s₂).1)
join_lem status pcb child s xs few fresh h = rw (joins pcb child s xs h few) (
  waits pcb child s,
  join_first status pcb child s xs fresh left_over_children,
  (
    exited,
    exits status child s new_future (settled status) fresh (set_first status),
    ap (λ r. r.0) (joins pcb child exited xs h few) ∙ waits pcb child exited,
    rw (joins pcb child exited xs h few) (
        exit_first status pcb child exited xs (put_self child (settled status) s)
          left_over_children),
  ),
)
  where
    left_over_children : Holds (remove_child s.children).1 xs
    left_over_children = (pop_lem child s.children xs h few).2

    exited : Family
    exited = record s { exit_future = put_future child (settled status) s }
