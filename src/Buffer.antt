-- ===== src/Buffer.antt =====
-- kernel/bb.h: the bounded buffer that a pipe is, with its two semaphores and the ready queue of
-- kernel/events.cc. The closures that `put` and `get` hand to the semaphores are the events. A core
-- runs a closure in steps: the call of the queue, the call of the semaphore, and `work`; each is one step, as the
-- locks make it, and the steps of the closures that run on several cores come in any order. `none`
-- is a failed ASSERT of a semaphore, or the use of a null pointer that `queue.remove()` returned.
pub mod Count
pub mod Order
mod Tests
use simplified_os_kernel.Prelude.{ℕ, suc, zero, ◌+◌, ◌≡◌, Option, none, some, List, [], ◌∷◌, ◌++◌}
use simplified_os_kernel.Semaphore.{Semaphore, make, down, up}

-- The closure of `put(v, work)`, and that of `get(work)`; `w` and `g` name the works.
pub data Event (T : Type 0) : Type 0 where
  put_slot : (v : T) (w : ℕ) → Event T
  take_slot : (g : ℕ) → Event T

-- A closure that runs on a core, by what it does next.
pub data Running (T : Type 0) : Type 0 where
  add_value : (v : T) (w : ℕ) → Running T
  up_full : (v : T) (w : ℕ) → Running T
  work_put : (v : T) (w : ℕ) → Running T
  remove_value : (g : ℕ) → Running T
  up_empty : (g : ℕ) (v : T) → Running T
  work_get : (g : ℕ) (v : T) → Running T

-- A put has stored its value, or a get has received it.
pub data Done (T : Type 0) : Type 0 where
  wrote : (w : ℕ) (v : T) → Done T
  got : (g : ℕ) (v : T) → Done T

-- `ops` tells the calls of `queue.add` and `queue.remove`, in order, and `log` those of `work`.
pub record Buffer (T : Type 0) : Type 0 where
  pub queue : List T
  pub n_full : Semaphore (Event T)
  pub n_empty : Semaphore (Event T)
  pub ready : List (Event T)
  pub running : List (Running T)
  pub ops : List (Done T)
  pub log : List (Done T)

-- The element at place `i` of a list, and the others.
unfoldable pub pick : {A : Type 0} → List A → ℕ → Option (A × List A)
pick [] i = none
pick (e ∷ rest) zero = some (e, rest)
pick (e ∷ rest) (suc i) = elim (pick rest i) [ none ↦ none | some r ↦ some (r.0, e ∷ r.1) ]

module _ {T : Type 0} where
  unfoldable pub new_buffer : ℕ → Buffer T
  unfolding make
  new_buffer n = record {
    queue = [];
    n_full = make 0;
    n_empty = make n;
    ready = [];
    running = [];
    ops = [];
    log = [];
  }

  unfoldable pub put : T → ℕ → Buffer T → Buffer T
  put v w b =
      let r = down (put_slot v w) b.n_empty b.ready in record b { n_empty = r.0; ready = r.1 }

  unfoldable pub get : ℕ → Buffer T → Buffer T
  get g b = let r = down (take_slot g) b.n_full b.ready in record b { n_full = r.0; ready = r.1 }

  unfoldable pub begin : Event T → Running T
  begin (put_slot v w) = add_value v w
  begin (take_slot g) = remove_value g

  abbrev pub filled : T → ℕ → Buffer T → Semaphore (Event T) × List (Event T) → Buffer T
  filled v w b r = record b { n_full = r.0; ready = r.1; running = work_put v w ∷ b.running }

  abbrev pub freed : ℕ → T → Buffer T → Semaphore (Event T) × List (Event T) → Buffer T
  freed g v b r = record b { n_empty = r.0; ready = r.1; running = work_get g v ∷ b.running }

  -- `queue.remove()`, by what is in the queue.
  unfoldable pub remove_first : ℕ → List T → Buffer T → Option (Buffer T)
  remove_first g [] b = none
  remove_first g (v ∷ rest) b =
      some (record b {
        queue = rest;
        ops = b.ops ++ (got g v ∷ []);
        running = up_empty g v ∷ b.running;
      })

  -- The next step of a closure; `b` has the other closures that run.
  unfoldable pub advance : Running T → Buffer T → Option (Buffer T)
  unfolding remove_first
  advance (add_value v w) b = some (record b {
    queue = b.queue ++ (v ∷ []);
    ops = b.ops ++ (wrote w v ∷ []);
    running = up_full v w ∷ b.running;
  })
  advance (up_full v w) b = elim (up b.n_full b.ready) [
    | none ↦ none
    | some r ↦ some (filled v w b r)
  ]
  advance (work_put v w) b = some (record b { log = b.log ++ (wrote w v ∷ []) })
  advance (remove_value g) b = remove_first g b.queue b
  advance (up_empty g v) b = elim (up b.n_empty b.ready) [
    | none ↦ none
    | some r ↦ some (freed g v b r)
  ]
  advance (work_get g v) b = some (record b { log = b.log ++ (got g v ∷ []) })

  -- What the cores do with a buffer: calls of `put` and `get`, the start of ready events, and the steps
  -- of those that run. With several cores the events need not start in the order in which they became
  -- ready.
  pub data Step (b : Buffer T) : Buffer T → Type 0 where
    puts : (v : T) (w : ℕ) → Step b (put v w b)
    gets : (g : ℕ) → Step b (get g b)
    starts :
        (i : ℕ) {e : Event T} {rest : List (Event T)}
        → pick b.ready i ≡ some (e, rest)
        → Step b (record b { ready = rest; running = begin e ∷ b.running })
    advances :
        (i : ℕ) {r : Running T} {rest : List (Running T)} {b' : Buffer T}
        → pick b.running i ≡ some (r, rest)
        → advance r (record b { running = rest }) ≡ some b'
        → Step b b'

  -- The states of a buffer that was made with `n` slots.
  pub data Reach (n : ℕ) : Buffer T → Type 0 where
    fresh : Reach n (new_buffer n)
    after : {b c : Buffer T} → Step b c → Reach n b → Reach n c
