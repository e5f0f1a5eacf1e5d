-- ===== src/Sems/Tests.antt =====
-- A process with one semaphore of count 1, in the first of its 100 places.
use simplified_os_kernel.Prelude.{
  ℕ, ◌+◌, ◌<◌, ◌≤◌, ◌≡◌, inl, arith, true, false, none, some, some_inj, List, [], ◌∷◌, ◌++◌, length,
  ◌⊎◌, if◌then◌else◌, ◌==◌, Bool-cases, inr, ap, sym,
}
use simplified_os_kernel.Prelude.Words.{minus_one, u32_mod}
use simplified_os_kernel.Semaphore.{Semaphore, down, up}
use simplified_os_kernel.Shared.{Counted}
use simplified_os_kernel.Shared.Contents.{none_absurd}
use simplified_os_kernel.Handles.{nulls, pointer, is_bad, is_null}
use simplified_os_kernel.Handles.Laws.{refs-nulls, length-nulls}
use simplified_os_kernel.Sems.{Sems, returns, waits, sem, sys_up, sys_down}
use simplified_os_kernel.Sems.Calls.{IsOk, Made, sem_lem}
use simplified_os_kernel.Sems.Wait.{Signalled, up_lem, down_lem}

abbrev one : Semaphore ℕ
one = record { count = 1; waiting = [] }

abbrev started : Sems
started = record {
  handles = record {
    store = record {
      next_name = 1;
      object = λ p. if p == 0 then some (record { content = one; ref_count = 1 }) else none;
    };
    cells = some 0 ∷ nulls 99;
  };
  ready = [];
}

started-IsOk : IsOk started
started-IsOk = record {
  good = (
    omega (arith, length-nulls 99),
    record {
      counted = λ p. ground (arith, refs-nulls p 99);
      fresh = λ p h. ground (arith, h);
      few = λ p. ground (arith, refs-nulls p 99);
    },
  );
  fair = λ p c e. elim (Bool-cases (p == 0)) [
    | inl y ↦
        inl (ap (λ (d : Counted (Semaphore ℕ)). d.content.waiting) (sym (some_inj _ c (rw y at e))))
    | inr n ↦ none_absurd c (rw n at e)
  ];
}

room : 0 + 100 ≤ length started.handles.cells
room = omega (arith, length-nulls 99)

few : length started.handles.cells + 3 < u32_mod
few = omega (arith, length-nulls 99)

sem_lem_example :
    ((sem 0 5 started ≡ some (returns minus_one, started))
      × ((j : ℕ) → j < 100 → is_null (pointer started.handles (0 + j)) ≡ false))
    ⊎ ((i : ℕ) × (st' : Sems) × (sem 0 5 started ≡ some (returns i, st')) × Made 0 5 started i st')
sem_lem_example = sem_lem 0 5 started started-IsOk room

up_lem_example :
    ((is_bad started.handles 0 100 0 ≡ true)
      × (sys_up 0 0 started ≡ some (returns minus_one, started)))
    ⊎ ((p : ℕ) × (s : Semaphore ℕ) × (r : Semaphore ℕ × List ℕ) × (st' : Sems) × (pointer
            started.handles
            (0 + 0)
          ≡ some p)
        × (up s started.ready ≡ some r)
        × (sys_up 0 0 started ≡ some (returns 0, st'))
        × Signalled p s r started (returns 0) st'
        × (st'.handles.cells ≡ started.handles.cells ++ (none ∷ [])))
up_lem_example = up_lem 0 0 started started-IsOk room few

down_lem_example :
    ((is_bad started.handles 0 100 0 ≡ true)
      × (sys_down 7 0 0 started ≡ some (returns minus_one, started)))
    ⊎ ((p : ℕ) × (s : Semaphore ℕ) × (st' : Sems) × (pointer started.handles (0 + 0) ≡ some p)
        × (sys_down 7 0 0 started ≡ some (waits, st'))
        × Signalled p s (down 7 s started.ready) started waits st'
        × (st'.handles.cells ≡ started.handles.cells ++ (some p ∷ [])))
down_lem_example = down_lem 7 0 0 started started-IsOk room few
