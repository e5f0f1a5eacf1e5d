-- ===== src/Signals/Nesting.antt =====
-- Handlers do not nest, and give the process back as it was.
use simplified_os_kernel.Prelude.{
  ℕ, ◌%◌, ◌≡◌, refl, arith, Bool, true, false, not, ◌&&◌, ◌||◌, Option, none, some, List, [], ◌∷◌,
  ◌==◌, if◌then◌else◌, Bool-cases, ◌⊎◌, inl, inr,
}
use simplified_os_kernel.Prelude.Words.{minus_one}
use simplified_os_kernel.Signals.{
  UserContext, Cpu, Next, yields, enters, exits, returns, maps, defers, switch_processes, exit,
  switch_interrupt, sigreturn, simple_signal, deliver, page_fault, handle_kill, apit_handler, kill,
  Event, timer, fault, sigreturns, signals, kills, step, is_exit, trace,
}

-- The context that the handler is to give back, while it runs.
abbrev pub saved : Cpu → Option UserContext
saved s = if s.pcb.in_handler then some s.pcb.handler_user_context else none

-- What an event interrupts. A call or a kill interrupts nothing that a handler gives back.
abbrev pub Interrupts : Event → UserContext → Type 0
Interrupts (timer c) c' = c ≡ c'
Interrupts (fault va inside c) c' = c ≡ c'
Interrupts (sigreturns c) c' = ⊥
Interrupts (signals eip c) c' = ⊥
Interrupts (kills v) c' = ⊥

-- The end of a handler: a call of sigreturn, or a fault at the return address 0x2000.
abbrev pub is_return : Event → Bool
is_return (timer c) = false
is_return (fault va inside c) = va == 0x2000
is_return (sigreturns c) = true
is_return (signals eip c) = false
is_return (kills v) = false

-- The process ends when no handler runs by a timer interrupt, which is a kill, or by a fault outside
-- its regions, with 139; and when one runs only by such a fault, which is not at the return address.
abbrev pub Ends : Event → Bool → ℕ → Type 0
Ends (timer c) in_handler v = in_handler ≡ false
Ends (fault va inside c) in_handler v =
    (inside ≡ false) × ((in_handler && va == 0x2000) ≡ false) × (v ≡ 139)
Ends (sigreturns c) in_handler v = ⊥
Ends (signals eip c) in_handler v = ⊥
Ends (kills v') in_handler v = ⊥

-- One step, from what is saved before it to what is saved after it: a handler starts when none
-- runs, by an event whose context is saved; the end of a handler resumes the saved context; nothing
-- else changes what is saved.
abbrev pub Follows : Event → Option UserContext → Next → Option UserContext → Type 0
Follows e none (enters eip esp kind arg) after =
    (c : UserContext) × Interrupts e c × (after ≡ some c)
Follows e none (yields c) after = after ≡ none
Follows e none (exits v) after = (after ≡ none) × Ends e false v
Follows e none (returns v) after = after ≡ none
Follows e none (maps va) after = after ≡ none
Follows e none defers after = after ≡ none
Follows e (some c) (enters eip esp kind arg) after = ⊥
Follows e (some c) (yields c') after =
    ((is_return e ≡ true) × (c' ≡ c) × (after ≡ none)) ⊎ ((is_return e ≡ false) × (after ≡ some c))
Follows e (some c) (exits v) after = (after ≡ some c) × Ends e true v
Follows e (some c) (returns v) after = (is_return e ≡ false) × (after ≡ some c)
Follows e (some c) (maps va) after = (is_return e ≡ false) × (after ≡ some c)
Follows e (some c) defers after = (is_return e ≡ false) × (after ≡ some c)

abbrev pub IsBalanced : Option UserContext → List (Event × Next) → Type 0
IsBalanced before [] = Unit
IsBalanced before ((e, n) ∷ t) =
    (after : Option UserContext) × Follows e before n after × IsBalanced after t

-- What a step gives follows from what was saved.
abbrev Fits : Event → Option UserContext → Cpu × Next → Type 0
Fits e before r = Follows e before r.1 (saved r.0)

cut_short :
    (b : Bool) (before : Option UserContext) (t : List (Event × Next))
    → IsBalanced before t
    → IsBalanced before (if b then [] else t)
cut_short true before t h = tt
cut_short false before t h = h

module _ (c : UserContext) (eip : ℕ) (hc : UserContext) (k : Bool) (kv : ℕ) (hd : Bool) where
  -- The processor, by whether a timer interrupt is pending and whether a handler runs.
  abbrev cpu : Bool → Bool → Cpu
  cpu i h = record {
    interrupts = i;
    pcb = record {
      user_context = c;
      in_handler = h;
      handler_eip = eip;
      handler_user_context = hc;
      killed = k;
      killed_v = kv;
      handled = hd;
    };
  }

  -- The way back of a call changes nothing that is saved.
  returning :
      (e : Event) (c' : UserContext) (v : ℕ) (i h : Bool)
      → is_return e ≡ false
      → Fits e (saved (cpu i h)) (switch_interrupt c' v (cpu i h))
  unfolding switch_interrupt switch_processes
  returning e c' v true true other = inr (other, refl)
  returning e c' v true false other = refl
  returning e c' v false true other = (other, refl)
  returning e c' v false false other = refl

  -- With no handler, sigreturn fails.
  failing :
      (e : Event) (c' : UserContext) (i : Bool)
      → Fits e none (switch_interrupt c' minus_one (cpu i false))
  unfolding switch_interrupt switch_processes
  failing e c' true = refl
  failing e c' false = refl

  returned :
      (e : Event) (c' : UserContext) (i h : Bool)
      → is_return e ≡ true
      → Fits e (saved (cpu i h)) (sigreturn c' (cpu i h))
  unfolding sigreturn switch_processes
  returned e c' i true back = inl (back, refl, refl)
  returned e c' i false back = failing e c' i

  timed :
      (c' : UserContext) (i h : Bool)
      → Fits (timer c') (saved (cpu i h)) (apit_handler c' (cpu i h))
  unfolding apit_handler switch_processes handle_kill exit deliver
  timed c' i true = elim (Bool-cases (c'.iframe.cs % 4 == 0)) [
    | inl kernel ↦ rw (kernel) (refl, refl)
    | inr user ↦ elim (Bool-cases (k && (not hd && false))) [
      | inl to_kill ↦ absurd (no_kill to_kill)
      | inr keep ↦ rw (user, keep) (inr (refl, refl))
    ]
  ]
    where
      no_kill : (k && (not hd && false)) ≡ true → ⊥
      no_kill e = ground arith
  timed c' i false = elim (Bool-cases (c'.iframe.cs % 4 == 0)) [
    | inl kernel ↦ rw (kernel) refl
    | inr user ↦ elim (Bool-cases (k && (not hd && true))) [
      | inr keep ↦ rw (user, keep) refl
      | inl to_kill ↦ elim (Bool-cases (eip == 0)) [
        | inl no_handler ↦ rw (user, to_kill, no_handler) (refl, refl)
        | inr handler ↦ rw (user, to_kill, handler) (c', refl, refl)
      ]
    ]
  ]

  faulted :
      (va : ℕ) (inside : Bool) (c' : UserContext) (i h : Bool)
      → Fits (fault va inside c') (saved (cpu i h)) (page_fault va inside c' (cpu i h))
  unfolding page_fault exit deliver
  faulted va true c' i true = elim (Bool-cases (va == 0x2000)) [
    | inl back ↦ rw (back) (returned (fault va true c') c' i true back)
    | inr away ↦ rw (away) (away, refl)
  ]
  faulted va false c' i true = elim (Bool-cases (va == 0x2000)) [
    | inl back ↦ rw (back) (returned (fault va false c') c' i true back)
    | inr away ↦ rw (away, either (eip == 0)) (refl, (refl, away, refl))
  ]
    where
      either : (b : Bool) → (b || true) ≡ true
      either true = refl
      either false = refl
  faulted va true c' i false = refl
  faulted va false c' i false = elim (Bool-cases (eip == 0)) [
    | inl ends ↦ rw (ends) (refl, (refl, refl, refl))
    | inr handler ↦ rw (handler) (c', refl, refl)
  ]

  killing : (v : ℕ) (i h : Bool) → Fits (kills v) (saved (cpu i h)) (step (kills v) (cpu i h))
  unfolding step kill
  killing v i true = elim (Bool-cases (k || hd)) [
    | inl before ↦ rw (before) (refl, refl)
    | inr first ↦ rw (first) (refl, refl)
  ]
  killing v i false = elim (Bool-cases (k || hd)) [
    | inl before ↦ rw (before) refl
    | inr first ↦ rw (first) refl
  ]

-- Each step follows from what is saved.
step_lem : (e : Event) (s : Cpu) → Fits e (saved s) (step e s)
unfolding step simple_signal
step_lem (timer c) s =
    timed s.pcb.user_context s.pcb.handler_eip s.pcb.handler_user_context s.pcb.killed
      s.pcb.killed_v s.pcb.handled c s.interrupts s.pcb.in_handler
step_lem (fault va inside c) s =
    faulted s.pcb.user_context s.pcb.handler_eip s.pcb.handler_user_context s.pcb.killed
      s.pcb.killed_v s.pcb.handled va inside c s.interrupts s.pcb.in_handler
step_lem (sigreturns c) s =
    returned s.pcb.user_context s.pcb.handler_eip s.pcb.handler_user_context s.pcb.killed
      s.pcb.killed_v s.pcb.handled (sigreturns c) c s.interrupts s.pcb.in_handler refl
step_lem (signals eip c) s =
    returning s.pcb.user_context eip s.pcb.handler_user_context s.pcb.killed s.pcb.killed_v
      s.pcb.handled (signals eip c) c 1 s.interrupts s.pcb.in_handler refl
step_lem (kills v) s =
    killing s.pcb.user_context s.pcb.handler_eip s.pcb.handler_user_context s.pcb.killed
      s.pcb.killed_v s.pcb.handled v s.interrupts s.pcb.in_handler

-- In every series of timer interrupts, page faults, calls of sigreturn and simple_signal, and kills
-- by the parent, up to the exit of the process: a handler starts only when none runs, by an
-- interrupt or a fault, whose context is saved; when the handler ends, by sigreturn or at the return
-- address 0x2000, the process becomes ready with exactly that context; and nothing else, not even
-- the timer or a kill while the handler runs, changes what is saved. The process exits only by a
-- timer interrupt when no handler runs, or, with 139, by a fault outside its regions that is not the
-- end of a handler.
pub trace-IsBalanced : (es : List Event) (s : Cpu) → IsBalanced (saved s) (trace es s)
unfolding trace
trace-IsBalanced [] s = tt
trace-IsBalanced (e ∷ es) s = (
  saved (step e s).0,
  step_lem e s,
  cut_short (is_exit (step e s).1) (saved (step e s).0) (trace es (step e s).0)
      (trace-IsBalanced es (step e s).0),
)
