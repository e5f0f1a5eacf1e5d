-- ===== src/Signals/KillSteps.antt =====
-- What one step of a process does about kills.
use simplified_os_kernel.Prelude.{
  ℕ, ◌%◌, ◌≡◌, refl, Bool, true, false, ◌&&◌, ◌||◌, List, [], ◌∷◌, ◌++◌, ◌==◌, if◌then◌else◌,
  Bool-cases, ◌⊎◌, inl, inr,
}
use simplified_os_kernel.Prelude.Words.{minus_one}
use simplified_os_kernel.Signals.{
  UserContext, Cpu, Next, yields, enters, exits, returns, maps, defers, switch_processes, exit,
  switch_interrupt, sigreturn, simple_signal, deliver, page_fault, handle_kill, apit_handler, kill,
  Event, timer, fault, sigreturns, signals, kills, step,
}

-- The value of a kill that the parent was told is done.
abbrev pub accepted_by : Event → Next → List ℕ
accepted_by (timer c) n = []
accepted_by (fault va inside c) n = []
accepted_by (sigreturns c) n = []
accepted_by (signals eip c) n = []
accepted_by (kills v) (yields c) = []
accepted_by (kills v) (enters eip esp kind arg) = []
accepted_by (kills v) (exits w) = []
accepted_by (kills v) (returns w) = if w == 0 then v ∷ [] else []
accepted_by (kills v) (maps va) = []
accepted_by (kills v) defers = []

-- The value with which the timer interrupt starts a handler or ends the process.
abbrev pub delivered_by : Event → Next → List ℕ
delivered_by (timer c) (yields c') = []
delivered_by (timer c) (enters eip esp kind arg) = arg ∷ []
delivered_by (timer c) (exits v) = v ∷ []
delivered_by (timer c) (returns v) = []
delivered_by (timer c) (maps va) = []
delivered_by (timer c) defers = []
delivered_by (fault va inside c) n = []
delivered_by (sigreturns c) n = []
delivered_by (signals eip c) n = []
delivered_by (kills v) n = []

abbrev pub accepted : List (Event × Next) → List ℕ
accepted [] = []
accepted ((e, n) ∷ t) = accepted_by e n ++ accepted t

abbrev pub delivered : List (Event × Next) → List ℕ
delivered [] = []
delivered ((e, n) ∷ t) = delivered_by e n ++ delivered t

-- What a step does about kills: nothing; or a kill is accepted; or it is delivered.
pub record IsQuiet (e : Event) (s : Cpu) (r : Cpu × Next) : Type 0 where
  pub none_accepted : accepted_by e r.1 ≡ []
  pub none_delivered : delivered_by e r.1 ≡ []
  pub killed : r.0.pcb.killed ≡ s.pcb.killed
  pub killed_v : r.0.pcb.killed_v ≡ s.pcb.killed_v
  pub handled : r.0.pcb.handled ≡ s.pcb.handled

pub record Accepts (e : Event) (s : Cpu) (r : Cpu × Next) : Type 0 where
  pub not_killed : s.pcb.killed ≡ false
  pub not_handled : s.pcb.handled ≡ false
  pub value : ℕ
  pub one_accepted : accepted_by e r.1 ≡ value ∷ []
  pub none_delivered : delivered_by e r.1 ≡ []
  pub killed : r.0.pcb.killed ≡ true
  pub killed_v : r.0.pcb.killed_v ≡ value
  pub handled : r.0.pcb.handled ≡ false

pub record Delivers (e : Event) (s : Cpu) (r : Cpu × Next) : Type 0 where
  pub was_killed : s.pcb.killed ≡ true
  pub not_handled : s.pcb.handled ≡ false
  pub none_accepted : accepted_by e r.1 ≡ []
  pub one_delivered : delivered_by e r.1 ≡ s.pcb.killed_v ∷ []
  pub killed : r.0.pcb.killed ≡ true
  pub handled : r.0.pcb.handled ≡ true

unfoldable pub Steps : Event → Cpu → Cpu × Next → Type 0
Steps e s r = IsQuiet e s r ⊎ (Accepts e s r ⊎ Delivers e s r)

module _ (c : UserContext) (eip : ℕ) (hc : UserContext) (kv : ℕ) where
  abbrev cpu : Bool → Bool → Bool → Bool → Cpu
  cpu i h k hd = record {
    interrupts = i;
    pcb = record {
      user_context = c;
      in_handler = h;
      handler_eip = eip;
      handler_user_context = hc;
      killed = k;
      killed_v = kv;
      handled = hd;
    };
  }

  returning :
      (c' : UserContext) (v : ℕ) (i h k hd : Bool)
      → ((switch_interrupt c' v (cpu i h k hd)).0.pcb.killed ≡ k)
        × ((switch_interrupt c' v (cpu i h k hd)).0.pcb.killed_v ≡ kv)
        × ((switch_interrupt c' v (cpu i h k hd)).0.pcb.handled ≡ hd)
  unfolding switch_interrupt switch_processes
  returning c' v true h k hd = (refl, refl, refl)
  returning c' v false h k hd = (refl, refl, refl)

  returned :
      (c' : UserContext) (i h k hd : Bool)
      → ((sigreturn c' (cpu i h k hd)).0.pcb.killed ≡ k)
        × ((sigreturn c' (cpu i h k hd)).0.pcb.killed_v ≡ kv)
        × ((sigreturn c' (cpu i h k hd)).0.pcb.handled ≡ hd)
  unfolding sigreturn switch_processes
  returned c' i true k hd = (refl, refl, refl)
  returned c' i false k hd = returning c' minus_one i false k hd

  faulted :
      (va : ℕ) (inside : Bool) (c' : UserContext) (i h k hd : Bool)
      → ((page_fault va inside c' (cpu i h k hd)).0.pcb.killed ≡ k)
        × ((page_fault va inside c' (cpu i h k hd)).0.pcb.killed_v ≡ kv)
        × ((page_fault va inside c' (cpu i h k hd)).0.pcb.handled ≡ hd)
  unfolding page_fault exit deliver
  faulted va inside c' i h k hd = elim (Bool-cases (h && va == 0x2000)) [
    | inl back ↦ rw (back) (returned c' i h k hd)
    | inr away ↦ elim (Bool-cases inside) [
      | inl there ↦ rw (away, there) (refl, refl, refl)
      | inr outside ↦ elim (Bool-cases ((eip == 0) || h)) [
        | inl ends ↦ rw (away, outside, ends) (refl, refl, refl)
        | inr handler ↦ rw (away, outside, handler) (refl, refl, refl)
      ]
    ]
  ]

  timed :
      (c' : UserContext) (i h k hd : Bool)
      → Steps (timer c') (cpu i h k hd) (apit_handler c' (cpu i h k hd))
  unfolding apit_handler switch_processes handle_kill exit deliver Steps
  timed c' i h false hd = elim (Bool-cases (c'.iframe.cs % 4 == 0)) [
    | inl kernel ↦ rw (kernel) (
        inl (record {
          none_accepted = refl;
          none_delivered = refl;
          killed = refl;
          killed_v = refl;
          handled = refl;
        }))
    | inr user ↦ rw (user) (
        inl (record {
          none_accepted = refl;
          none_delivered = refl;
          killed = refl;
          killed_v = refl;
          handled = refl;
        }))
  ]
  timed c' i h true true = elim (Bool-cases (c'.iframe.cs % 4 == 0)) [
    | inl kernel ↦ rw (kernel) (
        inl (record {
          none_accepted = refl;
          none_delivered = refl;
          killed = refl;
          killed_v = refl;
          handled = refl;
        }))
    | inr user ↦ rw (user) (
        inl (record {
          none_accepted = refl;
          none_delivered = refl;
          killed = refl;
          killed_v = refl;
          handled = refl;
        }))
  ]
  timed c' i true true false = elim (Bool-cases (c'.iframe.cs % 4 == 0)) [
    | inl kernel ↦ rw (kernel) (
        inl (record {
          none_accepted = refl;
          none_delivered = refl;
          killed = refl;
          killed_v = refl;
          handled = refl;
        }))
    | inr user ↦ rw (user) (
        inl (record {
          none_accepted = refl;
          none_delivered = refl;
          killed = refl;
          killed_v = refl;
          handled = refl;
        }))
  ]
  timed c' i false true false = elim (Bool-cases (c'.iframe.cs % 4 == 0)) [
    | inl kernel ↦ rw (kernel) (
        inl (record {
          none_accepted = refl;
          none_delivered = refl;
          killed = refl;
          killed_v = refl;
          handled = refl;
        }))
    | inr user ↦ elim (Bool-cases (eip == 0)) [
      | inl no_handler ↦
          rw (user, no_handler)
            (inr (
              inr (record {
                was_killed = refl;
                not_handled = refl;
                none_accepted = refl;
                one_delivered = refl;
                killed = refl;
                handled = refl;
              })))
      | inr handler ↦
          rw (user, handler)
            (inr (
              inr (record {
                was_killed = refl;
                not_handled = refl;
                none_accepted = refl;
                one_delivered = refl;
                killed = refl;
                handled = refl;
              })))
    ]
  ]

  killing :
      (v : ℕ) (i h k hd : Bool) → Steps (kills v) (cpu i h k hd) (step (kills v) (cpu i h k hd))
  unfolding step kill Steps
  killing v i h true hd = inl (record {
    none_accepted = refl;
    none_delivered = refl;
    killed = refl;
    killed_v = refl;
    handled = refl;
  })
  killing v i h false true = inl (record {
    none_accepted = refl;
    none_delivered = refl;
    killed = refl;
    killed_v = refl;
    handled = refl;
  })
  killing v i h false false = inr (
      inl (record {
        not_killed = refl;
        not_handled = refl;
        value = v;
        one_accepted = refl;
        none_delivered = refl;
        killed = refl;
        killed_v = refl;
        handled = refl;
      }))

pub step_lem : (e : Event) (s : Cpu) → Steps e s (step e s)
unfolding step simple_signal Steps
step_lem (timer c) s =
    timed s.pcb.user_context s.pcb.handler_eip s.pcb.handler_user_context s.pcb.killed_v c
      s.interrupts s.pcb.in_handler s.pcb.killed s.pcb.handled
step_lem (fault va inside c) s =
    let (k, v, h) =
      faulted s.pcb.user_context s.pcb.handler_eip s.pcb.handler_user_context s.pcb.killed_v va
        inside c s.interrupts s.pcb.in_handler s.pcb.killed s.pcb.handled in
    inl (record {
      none_accepted = refl;
      none_delivered = refl;
      killed = k;
      killed_v = v;
      handled = h;
    })
step_lem (sigreturns c) s =
    let (k, v, h) =
      returned s.pcb.user_context s.pcb.handler_eip s.pcb.handler_user_context s.pcb.killed_v c
        s.interrupts s.pcb.in_handler s.pcb.killed s.pcb.handled in
    inl (record {
      none_accepted = refl;
      none_delivered = refl;
      killed = k;
      killed_v = v;
      handled = h;
    })
step_lem (signals eip c) s =
    let (k, v, h) =
      returning s.pcb.user_context eip s.pcb.handler_user_context s.pcb.killed_v c 1 s.interrupts
        s.pcb.in_handler s.pcb.killed s.pcb.handled in
    inl (record {
      none_accepted = refl;
      none_delivered = refl;
      killed = k;
      killed_v = v;
      handled = h;
    })
step_lem (kills v) s =
    killing s.pcb.user_context s.pcb.handler_eip s.pcb.handler_user_context s.pcb.killed_v v
      s.interrupts s.pcb.in_handler s.pcb.killed s.pcb.handled
