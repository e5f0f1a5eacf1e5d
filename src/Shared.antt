-- ===== src/Shared.antt =====
-- kernel/shared.h: reference-counted pointers. A pointer is a name of an object or null; the store says
-- which objects live, with their counts. `none` is the use of an object that was deleted. The counters
-- are atomic, so each call is one step.
pub mod Counts
pub mod Contents
mod Tests
use simplified_os_kernel.Prelude.{
  ℕ, suc, ◌+◌, ◌≡◌, Bool, true, false, Option, none, some, ◌==◌, if◌then◌else◌,
}
use simplified_os_kernel.Prelude.Words.{add32, sub32}

pub record Counted (T : Type 0) : Type 0 where
  pub content : T
  pub ref_count : ℕ

-- Objects get the names 0, 1, …; a name is not used again.
pub record Store (T : Type 0) : Type 0 where
  pub next_name : ℕ
  pub object : ℕ → Option (Counted T)

abbrev pub Shared : Type 0
Shared = Option ℕ

abbrev pub same : Shared → Shared → Bool
same none none = true
same none (some q) = false
same (some p) none = false
same (some p) (some q) = p == q

module _ {T : Type 0} where
  abbrev pub update : Store T → ℕ → Option (Counted T) → Store T
  update s p c = record s { object = λ q. if q == p then c else s.object q }

  unfoldable pub ref_object : Store T → ℕ → Option (Counted T) → Option (Store T)
  ref_object s p none = none
  ref_object s p (some c) = some (update s p (some (record c { ref_count = add32 c.ref_count 1 })))

  unfoldable pub ref : Shared → Store T → Option (Store T)
  unfolding ref_object
  ref none s = some s
  ref (some p) s = ref_object s p (s.object p)

  -- `delete ptr` where the count comes down to 0.
  unfoldable pub unref_object : Store T → ℕ → Option (Counted T) → Option (Store T)
  unref_object s p none = none
  unref_object s p (some c) =
      let n = sub32 c.ref_count 1 in
      some (update s p (if n == 0 then none else some (record c { ref_count = n })))

  unfoldable pub unref : Shared → Store T → Option (Store T)
  unfolding unref_object
  unref none s = some s
  unref (some p) s = unref_object s p (s.object p)

  unfoldable pub reference : Shared → Option (Store T) → Option (Shared × Store T)
  unfolding ref
  reference rhs none = none
  reference rhs (some s) = elim (ref rhs s) [ none ↦ none | some s' ↦ some (rhs, s') ]

  -- `lhs = rhs` for two pointers: the pointer that `lhs` becomes, and the store.
  unfoldable pub copy_assign : Shared → Shared → Store T → Option (Shared × Store T)
  unfolding unref reference
  copy_assign lhs rhs s =
      let after = reference rhs (unref lhs s) in if same lhs rhs then some (lhs, s) else after

  unfoldable pub moved : Shared → Option (Store T) → Option (Shared × Store T)
  moved rhs none = none
  moved rhs (some s) = some (rhs, s)

  -- `lhs = rhs` for a temporary `rhs`, which the assignment leaves null.
  unfoldable pub move_assign : Shared → Shared → Store T → Option (Shared × Store T)
  unfolding unref moved
  move_assign lhs rhs s =
      let after = moved rhs (unref lhs s) in if same lhs rhs then some (lhs, s) else after

  -- The new object is counted once, by the pointer that is returned.
  unfoldable pub make : T → Store T → Shared × Store T
  make v s = (
    some s.next_name,
    record {
      next_name = suc s.next_name;
      object = λ q.
          if q == s.next_name then some (record { content = v; ref_count = 1 }) else s.object q;
    },
  )
