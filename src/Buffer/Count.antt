-- ===== src/Buffer/Count.antt =====
-- The two counts of a bounded buffer: values and slots.
use simplified_os_kernel.Prelude.{
  ℕ, suc, zero, ◌+◌, ◌≤◌, ◌≡◌, ◌⊎◌, inl, inr, refl, some, List, [], ◌∷◌, ◌++◌, arith, length,
  length-append, All, All-append, Option-cases, ap, sym, ◌∙◌, subst, some_inj,
}
use simplified_os_kernel.Semaphore.{Semaphore, down}
use simplified_os_kernel.Semaphore.Fifo.{IsFair, up_cases}
use simplified_os_kernel.Buffer.{
  Event, put_slot, take_slot, Running, add_value, up_full, work_put, remove_value, up_empty,
  work_get, Buffer, new_buffer, put, get, begin, filled, freed, remove_first, advance, pick, Step,
  puts, gets, starts, advances, Reach, fresh, after,
}

module _ {T : Type 0} where
  abbrev pub IsPut : Event T → Type 0
  IsPut (put_slot v w) = Unit {0}
  IsPut (take_slot g) = ⊥

  abbrev pub IsTake : Event T → Type 0
  IsTake (put_slot v w) = ⊥
  IsTake (take_slot g) = Unit {0}

  abbrev pub put_count : List (Event T) → ℕ
  put_count [] = 0
  put_count (put_slot v w ∷ es) = suc (put_count es)
  put_count (take_slot g ∷ es) = put_count es

  abbrev pub take_count : List (Event T) → ℕ
  take_count [] = 0
  take_count (put_slot v w ∷ es) = take_count es
  take_count (take_slot g ∷ es) = suc (take_count es)

  -- A closure that has a value of the queue to itself, or has one there that `n_full` does not count yet.
  abbrev pub full_of : Running T → ℕ
  full_of (add_value v w) = 0
  full_of (up_full v w) = 1
  full_of (work_put v w) = 0
  full_of (remove_value g) = 1
  full_of (up_empty g v) = 0
  full_of (work_get g v) = 0

  -- A closure that has a slot to itself, or has freed one that `n_empty` does not count yet.
  abbrev pub slot_of : Running T → ℕ
  slot_of (add_value v w) = 1
  slot_of (up_full v w) = 0
  slot_of (work_put v w) = 0
  slot_of (remove_value g) = 0
  slot_of (up_empty g v) = 1
  slot_of (work_get g v) = 0

  abbrev pub full_count : List (Running T) → ℕ
  full_count [] = 0
  full_count (r ∷ rs) = full_of r + full_count rs

  abbrev pub slot_count : List (Running T) → ℕ
  slot_count [] = 0
  slot_count (r ∷ rs) = slot_of r + slot_count rs

  -- Every value in the queue is promised to a getter that is ready or runs, belongs to a putter that
  -- still is to count it, or is counted by `n_full`; and so with the slots.
  pub record Inv (slots_n : ℕ) (b : Buffer T) : Type 0 where
    pub values : b.n_full.count + take_count b.ready + full_count b.running ≡ length b.queue
    pub slots :
        b.n_empty.count + put_count b.ready + slot_count b.running + length b.queue ≡ slots_n
    pub getters : All IsTake b.n_full.waiting
    pub putters : All IsPut b.n_empty.waiting
    pub full_fair : IsFair b.n_full
    pub empty_fair : IsFair b.n_empty

  put_count-append : (xs ys : List (Event T)) → put_count (xs ++ ys) ≡ put_count xs + put_count ys
  put_count-append [] ys = omega arith
  put_count-append (put_slot v w ∷ xs) ys = omega (arith, put_count-append xs ys)
  put_count-append (take_slot g ∷ xs) ys = put_count-append xs ys

  take_count-append :
      (xs ys : List (Event T)) → take_count (xs ++ ys) ≡ take_count xs + take_count ys
  take_count-append [] ys = omega arith
  take_count-append (put_slot v w ∷ xs) ys = take_count-append xs ys
  take_count-append (take_slot g ∷ xs) ys = omega (arith, take_count-append xs ys)

  new_buffer-Inv : (n : ℕ) → Inv n (new_buffer {T = T} n)
  unfolding new_buffer
  new_buffer-Inv n = record {
    values = omega arith;
    slots = omega arith;
    getters = tt;
    putters = tt;
    full_fair = inl refl;
    empty_fair = inl refl;
  }

  put-Inv : (slots_n w : ℕ) (v : T) (b : Buffer T) → Inv slots_n b → Inv slots_n (put v w b)
  unfolding put down
  put-Inv slots_n w v b i = record {
    values = ground (arith, take_count-append b.ready (put_slot v w ∷ []), i.values);
    slots = ground (arith, put_count-append b.ready (put_slot v w ∷ []), i.slots);
    getters = ground (arith, i.getters);
    putters = ground (arith, i.putters, All-append IsPut b.n_empty.waiting (put_slot v w ∷ []));
    full_fair = ground (arith, i.full_fair);
    empty_fair = ground (arith, i.empty_fair);
  }

  get-Inv : (slots_n g : ℕ) (b : Buffer T) → Inv slots_n b → Inv slots_n (get g b)
  unfolding get down
  get-Inv slots_n g b i = record {
    values = ground (arith, take_count-append b.ready (take_slot g ∷ []), i.values);
    slots = ground (arith, put_count-append b.ready (take_slot g ∷ []), i.slots);
    getters = ground (arith, i.getters, All-append IsTake b.n_full.waiting (take_slot g ∷ []));
    putters = ground (arith, i.putters);
    full_fair = ground (arith, i.full_fair);
    empty_fair = ground (arith, i.empty_fair);
  }

  pick_counts :
      (es : List (Event T)) (i : ℕ) (e : Event T) (rest : List (Event T))
      → pick es i ≡ some (e, rest)
      → (put_count es ≡ put_count (e ∷ rest)) × (take_count es ≡ take_count (e ∷ rest))
  unfolding pick
  pick_counts [] i e rest h = cc
  pick_counts (d ∷ es) zero e rest h = ground arith
  pick_counts (d ∷ es) (suc i) e rest h = elim (Option-cases (pick es i)) [
    | inl gone ↦ ground arith
    | inr ((e', rest'), there) ↦ ground (arith, pick_counts es i e' rest' there)
  ]

  one_take : (d : Event T) → IsTake d → (take_count (d ∷ []) ≡ 1) × (put_count (d ∷ []) ≡ 0)
  one_take (put_slot v w) h = absurd h
  one_take (take_slot g) h = (refl, refl)

  one_put : (d : Event T) → IsPut d → (take_count (d ∷ []) ≡ 0) × (put_count (d ∷ []) ≡ 1)
  one_put (put_slot v w) h = (refl, refl)
  one_put (take_slot g) h = absurd h

  pick_running :
      (rs : List (Running T)) (i : ℕ) (r : Running T) (rest : List (Running T))
      → pick rs i ≡ some (r, rest)
      → (full_count rs ≡ full_of r + full_count rest)
        × (slot_count rs ≡ slot_of r + slot_count rest)
  unfolding pick
  pick_running [] i r rest h = cc
  pick_running (d ∷ rs) zero r rest h = ground arith
  pick_running (d ∷ rs) (suc i) r rest h = elim (Option-cases (pick rs i)) [
    | inl gone ↦ ground arith
    | inr ((r', rest'), there) ↦ ground (arith, pick_running rs i r' rest' there)
  ]

  start-Inv :
      (slots_n i : ℕ) (b : Buffer T) (e : Event T) (rest : List (Event T))
      → Inv slots_n b
      → pick b.ready i ≡ some (e, rest)
      → Inv slots_n (record b { ready = rest; running = begin e ∷ b.running })
  unfolding begin
  start-Inv slots_n i b (put_slot v w) rest inv h =
      let counts = pick_counts b.ready i (put_slot v w) rest h in
      record {
        values = omega (arith, inv.values, counts.1);
        slots = omega (arith, inv.slots, counts.0);
        getters = inv.getters;
        putters = inv.putters;
        full_fair = inv.full_fair;
        empty_fair = inv.empty_fair;
      }
  start-Inv slots_n i b (take_slot g) rest inv h =
      let counts = pick_counts b.ready i (take_slot g) rest h in
      record {
        values = omega (arith, inv.values, counts.1);
        slots = omega (arith, inv.slots, counts.0);
        getters = inv.getters;
        putters = inv.putters;
        full_fair = inv.full_fair;
        empty_fair = inv.empty_fair;
      }

  module _ (slots_n : ℕ) (b : Buffer T) (rest : List (Running T)) (i : Inv slots_n b) where
    abbrev left : Buffer T
    left = record b { running = rest }

    abbrev Goes : Running T → Type 0
    Goes r = (b' : Buffer T) × (advance r left ≡ some b') × Inv slots_n b'

    up_full-Inv :
        (v : T) (w : ℕ)
        → full_count b.running ≡ 1 + full_count rest
        → slot_count b.running ≡ 0 + slot_count rest
        → (r : Semaphore (Event T) × List (Event T)) × (advance (up_full v w) left
            ≡ some (filled v w left r))
          × Inv slots_n (filled v w left r)
    unfolding advance
    up_full-Inv v w p t = elim (up_cases b.n_full b.ready i.full_fair) [
      | inl (idle, e) ↦ (
        (record b.n_full { count = b.n_full.count + 1 }, b.ready),
        rw (e, advance) refl,
        record {
          values = omega (arith, i.values, p);
          slots = omega (arith, i.slots, t);
          getters = i.getters;
          putters = i.putters;
          full_fair = inl idle;
          empty_fair = i.empty_fair;
        },
      )
      | inr (d, waiters, busy, zero_count, e) ↦
          let takes = rw busy at i.getters in
          let one = one_take d takes.0 in
          (
            (record b.n_full { waiting = waiters }, b.ready ++ (d ∷ [])),
            rw (e, advance) refl,
            record {
              values = omega (arith, i.values, p, take_count-append b.ready (d ∷ []), one.0);
              slots = omega (arith, i.slots, t, put_count-append b.ready (d ∷ []), one.1);
              getters = takes.1;
              putters = i.putters;
              full_fair = inr zero_count;
              empty_fair = i.empty_fair;
            },
          )
    ]

    up_empty-Inv :
        (g : ℕ) (v : T)
        → full_count b.running ≡ 0 + full_count rest
        → slot_count b.running ≡ 1 + slot_count rest
        → (r : Semaphore (Event T) × List (Event T)) × (advance (up_empty g v) left
            ≡ some (freed g v left r))
          × Inv slots_n (freed g v left r)
    unfolding advance
    up_empty-Inv g v p t = elim (up_cases b.n_empty b.ready i.empty_fair) [
      | inl (idle, e) ↦ (
        (record b.n_empty { count = b.n_empty.count + 1 }, b.ready),
        rw (e, advance) refl,
        record {
          values = omega (arith, i.values, p);
          slots = omega (arith, i.slots, t);
          getters = i.getters;
          putters = i.putters;
          full_fair = i.full_fair;
          empty_fair = inl idle;
        },
      )
      | inr (d, waiters, busy, zero_count, e) ↦
          let puts = rw busy at i.putters in
          let one = one_put d puts.0 in
          (
            (record b.n_empty { waiting = waiters }, b.ready ++ (d ∷ [])),
            rw (e, advance) refl,
            record {
              values = omega (arith, i.values, p, take_count-append b.ready (d ∷ []), one.0);
              slots = omega (arith, i.slots, t, put_count-append b.ready (d ∷ []), one.1);
              getters = i.getters;
              putters = puts.1;
              full_fair = i.full_fair;
              empty_fair = inr zero_count;
            },
          )
    ]

    -- A getter that runs finds a value.
    remove_first-Inv :
        (g : ℕ) (q : List T)
        → b.queue ≡ q
        → full_count b.running ≡ 1 + full_count rest
        → slot_count b.running ≡ 0 + slot_count rest
        → (v : T) × (b' : Buffer T) × (remove_first g q left ≡ some b')
          × (b'.running ≡ up_empty g v ∷ rest)
          × Inv slots_n b'
    unfolding remove_first
    remove_first-Inv g [] eq p t = absurd (omega (arith, i.values, ap length eq, p))
    remove_first-Inv g (v ∷ vs) eq p t = (
      v,
      _,
      refl,
      refl,
      record {
        values = omega (arith, i.values, ap length eq, p);
        slots = omega (arith, i.slots, ap length eq, t);
        getters = i.getters;
        putters = i.putters;
        full_fair = i.full_fair;
        empty_fair = i.empty_fair;
      },
    )

  -- The steps that a closure has before it.
  abbrev pub steps_left : Running T → ℕ
  steps_left (add_value v w) = 3
  steps_left (up_full v w) = 2
  steps_left (work_put v w) = 1
  steps_left (remove_value g) = 3
  steps_left (up_empty g v) = 2
  steps_left (work_get g v) = 1

  -- A closure ends with its last step; with another it goes on, and has one step less before it.
  abbrev pub GoesOn : Running T → List (Running T) → List (Running T) → Type 0
  GoesOn r rest running =
      ((steps_left r ≡ 1) × (running ≡ rest))
      ⊎ ((r' : Running T) × (running ≡ r' ∷ rest) × (steps_left r ≡ suc (steps_left r')))

  advance-Inv :
      (slots_n i : ℕ) (b : Buffer T) (r : Running T) (rest : List (Running T))
      → Inv slots_n b
      → pick b.running i ≡ some (r, rest)
      → (b' : Buffer T) × (advance r (record b { running = rest }) ≡ some b')
        × GoesOn r rest b'.running
        × Inv slots_n b'
  unfolding advance
  advance-Inv slots_n i b (add_value v w) rest inv h =
      let counts = pick_running b.running i (add_value v w) rest h in
      (
        _,
        refl,
        inr (up_full v w, refl, refl),
        record {
          values = omega (arith, inv.values, counts.0, length-append b.queue (v ∷ []));
          slots = omega (arith, inv.slots, counts.1, length-append b.queue (v ∷ []));
          getters = inv.getters;
          putters = inv.putters;
          full_fair = inv.full_fair;
          empty_fair = inv.empty_fair;
        },
      )
  advance-Inv slots_n i b (up_full v w) rest inv h =
      let counts = pick_running b.running i (up_full v w) rest h in
      let (r, ran, inv') = up_full-Inv slots_n b rest inv v w counts.0 counts.1 in
      (filled v w (record b { running = rest }) r, ran, inr (work_put v w, refl, refl), inv')
  advance-Inv slots_n i b (work_put v w) rest inv h =
      let counts = pick_running b.running i (work_put v w) rest h in
      (
        _,
        refl,
        inl (refl, refl),
        record {
          values = omega (arith, inv.values, counts.0);
          slots = omega (arith, inv.slots, counts.1);
          getters = inv.getters;
          putters = inv.putters;
          full_fair = inv.full_fair;
          empty_fair = inv.empty_fair;
        },
      )
  advance-Inv slots_n i b (remove_value g) rest inv h =
      let counts = pick_running b.running i (remove_value g) rest h in
      let (v, b', ran, goes, inv') =
        remove_first-Inv slots_n b rest inv g b.queue refl counts.0 counts.1 in
      (b', ran, inr (up_empty g v, goes, refl), inv')
  advance-Inv slots_n i b (up_empty g v) rest inv h =
      let counts = pick_running b.running i (up_empty g v) rest h in
      let (r, ran, inv') = up_empty-Inv slots_n b rest inv g v counts.0 counts.1 in
      (freed g v (record b { running = rest }) r, ran, inr (work_get g v, refl, refl), inv')
  advance-Inv slots_n i b (work_get g v) rest inv h =
      let counts = pick_running b.running i (work_get g v) rest h in
      (
        _,
        refl,
        inl (refl, refl),
        record {
          values = omega (arith, inv.values, counts.0);
          slots = omega (arith, inv.slots, counts.1);
          getters = inv.getters;
          putters = inv.putters;
          full_fair = inv.full_fair;
          empty_fair = inv.empty_fair;
        },
      )

  Step-Inv : (slots_n : ℕ) {b c : Buffer T} → Step b c → Inv slots_n b → Inv slots_n c
  Step-Inv slots_n {b} (puts v w) inv = put-Inv slots_n w v b inv
  Step-Inv slots_n {b} (gets g) inv = get-Inv slots_n g b inv
  Step-Inv slots_n {b} (starts i {e} {rest} picked) inv = start-Inv slots_n i b e rest inv picked
  Step-Inv slots_n {b} {c} (advances i {r} {rest} picked ran) inv =
      let (b', ran', _, inv') = advance-Inv slots_n i b r rest inv picked in
      subst (Inv slots_n) (some_inj b' c (sym ran' ∙ ran)) inv'

  Reach-Inv : (slots_n : ℕ) {c : Buffer T} → Reach slots_n c → Inv slots_n c
  Reach-Inv slots_n fresh = new_buffer-Inv slots_n
  Reach-Inv slots_n (after st r) = Step-Inv slots_n st (Reach-Inv slots_n r)

  -- Whatever the cores do with a new buffer of `slots_n` slots, with the steps of their closures in any
  -- order, it never holds more than `slots_n` values.
  pub length-queue-le : (slots_n : ℕ) {c : Buffer T} → Reach slots_n c → length c.queue ≤ slots_n
  length-queue-le slots_n r = omega (arith, (Reach-Inv slots_n r).slots)

  -- In every state that the cores reach from a new buffer, each closure that runs can take its next
  -- step, between any steps of the others: no assertion of a semaphore fails, and a getter never finds
  -- the queue empty. With the step the closure ends, or it has one step less before it, of three.
  pub reached_advance :
      (slots_n i : ℕ) {c : Buffer T} {r : Running T} {rest : List (Running T)}
      → Reach slots_n c
      → pick c.running i ≡ some (r, rest)
      → (c' : Buffer T) × (advance r (record c { running = rest }) ≡ some c')
        × GoesOn r rest c'.running
  reached_advance slots_n i {c} {r} {rest} reached picked =
      let (c', ran, goes, _) = advance-Inv slots_n i c r rest (Reach-Inv slots_n reached) picked in
      (c', ran, goes)

  -- In every state that the cores reach from a new buffer in which no event is ready and no closure
  -- runs, a getter waits only at an empty buffer, and a putter only at a full one.
  pub reached_idle :
      (slots_n : ℕ) {c : Buffer T}
      → Reach slots_n c
      → c.ready ≡ []
      → c.running ≡ []
      → ((c.n_full.waiting ≡ []) ⊎ (c.queue ≡ []))
        × ((c.n_empty.waiting ≡ []) ⊎ (length c.queue ≡ slots_n))
  reached_idle slots_n {c} r idle still = (
    elim inv.full_fair [
      | inl nobody ↦ inl nobody
      | inr none_left ↦ inr (
          empty c.queue
            (omega (arith, inv.values, ap take_count idle, ap full_count still, none_left)))
    ],
    elim inv.empty_fair [
      | inl nobody ↦ inl nobody
      | inr none_left ↦
          inr (omega (arith, inv.slots, ap put_count idle, ap slot_count still, none_left))
    ],
  )
    where
      inv : Inv slots_n c
      inv = Reach-Inv slots_n r

      empty : (q : List T) → length q ≡ 0 → q ≡ []
      empty [] h = refl
      empty (v ∷ q) h = absurd (omega arith)
