-- ===== src/Handles.antt =====
-- The arrays of reference-counted pointers of kernel/pcb.h, and the copies of them in the system calls of
-- kernel/sys.cc. Every pointer to objects of a kind is a cell of one list: the array of a process is
-- a range of it, from the base on, and a local variable is a cell of its own.
pub mod Laws
pub mod Seek
pub mod Contents
pub mod Local
mod Tests
use simplified_os_kernel.Prelude.{
  ℕ, zero, suc, ◌+◌, Bool, true, false, ◌||◌, not, Option, none, some, List, [], ◌∷◌, ◌++◌, length,
  get_elem?, set, leb, ◌==◌, if◌then◌else◌,
}
use simplified_os_kernel.Shared.{
  Counted, Store, Shared, update, ref, unref, copy_assign, move_assign, make,
}

pub record Handles (T : Type 0) : Type 0 where
  pub store : Store T
  pub cells : List Shared

abbrev pub is_null : Shared → Bool
is_null none = true
is_null (some p) = false

abbrev pub or_null : Option Shared → Shared
or_null none = none
or_null (some p) = p

-- `new Shared<T>[n]`.
unfoldable pub nulls : ℕ → List Shared
nulls zero = []
nulls (suc n) = none ∷ nulls n

module _ {T : Type 0} where
  abbrev pub pointer : Handles T → ℕ → Shared
  pointer h k = or_null (get_elem? h.cells k)

  -- `i >= n || array[i].is_null()`.
  abbrev pub is_bad : Handles T → ℕ → ℕ → ℕ → Bool
  is_bad h base n i = leb n i || is_null (pointer h (base + i))

  unfoldable pub stored : Handles T → ℕ → Option (Shared × Store T) → Option (Handles T)
  stored h k none = none
  stored h k (some r) = some (record { store = r.1; cells = set h.cells k r.0 })

  -- `array[k] = Shared<T>::make(v)`.
  unfoldable pub assign_new : T → Handles T → ℕ → Option (Handles T)
  assign_new v h k = stored h k (move_assign (pointer h k) (make v h.store).0 (make v h.store).1)

  -- `array[k] = array[j]`.
  unfoldable pub assign_copy : Handles T → ℕ → ℕ → Option (Handles T)
  assign_copy h k j = stored h k (copy_assign (pointer h k) (pointer h j) h.store)

  -- `array[k] = {}`.
  unfoldable pub clear : Handles T → ℕ → Option (Handles T)
  clear h k = stored h k (move_assign (pointer h k) none h.store)

  unfoldable pub held : Handles T → Shared → Option (Store T) → Option (Handles T)
  held h p none = none
  held h p (some s) = some (record { store = s; cells = h.cells ++ (p ∷ []) })

  -- `Shared<T> local = array[k]`: the local variable is the last cell.
  unfoldable pub hold : Handles T → ℕ → Option (Handles T)
  hold h k = held h (pointer h k) (ref (pointer h k) h.store)

  unfoldable pub new_array : ℕ → Handles T → ℕ × Handles T
  new_array n h = (length h.cells, record h { cells = h.cells ++ nulls n })

  -- The loop that looks for the first null pointer from `i` on, with `left` rounds left.
  unfoldable pub seek : Handles T → ℕ → ℕ → ℕ → Option ℕ
  seek h base i zero = none
  seek h base i (suc left) =
      let rest = seek h base (i + 1) left in if is_null (pointer h (base + i)) then some i else rest

  -- The loop of `fork`: `child[i] = parent[i]`, with `left` rounds left.
  unfoldable pub inherit : ℕ → ℕ → ℕ → ℕ → Handles T → Option (Handles T)
  inherit parent child i zero h = some h
  inherit parent child i (suc left) h = elim (assign_copy h (child + i) (parent + i)) [
    | none ↦ none
    | some h' ↦ inherit parent child (i + 1) left h'
  ]

  abbrev pub recontent : T → Option (Counted T) → Option (Counted T)
  recontent v none = none
  recontent v (some c) = some (record c { content = v })

  abbrev pub named : ℕ → Option (Counted T) → Option (ℕ × T)
  named p none = none
  named p (some c) = some (p, c.content)

  -- What `array[k]->…` reaches: the object and its content. `none` is a null pointer, or a deleted object.
  unfoldable pub target : Handles T → Shared → Option (ℕ × T)
  target h none = none
  target h (some p) = named p (h.store.object p)

  -- The object of a pointer gets a new content; its count stays.
  unfoldable pub set_content : Handles T → ℕ → T → Handles T
  set_content h p v = record h {
    store = record (h.store) {
      object = λ q. if p == q then recontent v (h.store.object q) else h.store.object q;
    };
  }
