-- ===== src/Signals/Kills.antt =====
-- A process is killed once, with the value of the kill that was accepted.
use simplified_os_kernel.Prelude.{
  ℕ, ◌≡◌, refl, sym, ap, subst, Bool, true, false, List, [], ◌∷◌, ◌++◌, if◌then◌else◌, ◌⊎◌, inl,
  inr,
}
use simplified_os_kernel.Signals.{UserContext, Cpu, new_pcb, Next, Event, step, is_exit, trace}
use simplified_os_kernel.Signals.KillSteps.{
  accepted_by, delivered_by, accepted, delivered, Steps, step_lem,
}

-- No kill is accepted and none is delivered; or one is accepted, and delivered once at most.
abbrev pub OneKill : List ℕ → List ℕ → Type 0
OneKill a d = ((a ≡ []) × (d ≡ [])) ⊎ ((v : ℕ) × (a ≡ v ∷ []) × ((d ≡ []) ⊎ (d ≡ v ∷ [])))

-- What is left to happen, by what has happened.
abbrev Pending : Bool → ℕ → Bool → List ℕ → List ℕ → Type 0
Pending false v hd a d = OneKill a d
Pending true v false a d = (a ≡ []) × ((d ≡ []) ⊎ (d ≡ v ∷ []))
Pending true v true a d = (a ≡ []) × (d ≡ [])

abbrev PendingOf : Cpu → List ℕ → List ℕ → Type 0
PendingOf s = Pending s.pcb.killed s.pcb.killed_v s.pcb.handled

nothing_left : (k : Bool) (v : ℕ) (hd : Bool) → Pending k v hd [] []
nothing_left false v hd = inl (refl, refl)
nothing_left true v false = (refl, inl refl)
nothing_left true v true = (refl, refl)

Pending-cong :
    (k k' : Bool) (v v' : ℕ) (hd hd' : Bool) (a a' d d' : List ℕ)
    → k ≡ k'
    → v ≡ v'
    → hd ≡ hd'
    → a ≡ a'
    → d ≡ d'
    → Pending k v hd a d
    → Pending k' v' hd' a' d'
Pending-cong k k' v v' hd hd' a a' d d' e₁ e₂ e₃ e₄ e₅ l =
    subst (λ d. Pending k' v' hd' a' d) e₅
      (subst (λ a. Pending k' v' hd' a d) e₄
        (subst (λ hd. Pending k' v' hd a d) e₃
          (subst (λ v. Pending k' v hd a d) e₂ (subst (λ k. Pending k v hd a d) e₁ l))))

cut_short :
    (b : Bool) (s : Cpu) (t : List (Event × Next))
    → PendingOf s (accepted t) (delivered t)
    → PendingOf s (accepted (if b then [] else t)) (delivered (if b then [] else t))
cut_short true s t h = nothing_left s.pcb.killed s.pcb.killed_v s.pcb.handled
cut_short false s t h = h

-- A step, before what is left after it.
before_step :
    (e : Event) (s : Cpu) (r : Cpu × Next) (a d : List ℕ)
    → Steps e s r
    → PendingOf r.0 a d
    → PendingOf s (accepted_by e r.1 ++ a) (delivered_by e r.1 ++ d)
unfolding Steps
before_step e s r a d (inl q) l =
    Pending-cong _ _ _ _ _ _ a _ d _ q.killed q.killed_v q.handled
      (ap (λ x. x ++ a) (sym q.none_accepted)) (ap (λ x. x ++ d) (sym q.none_delivered)) l
before_step e s r a d (inr (inl q)) l =
    Pending-cong _ _ _ _ _ _ (q.value ∷ a) _ d _ (sym q.not_killed) (refl {a = s.pcb.killed_v})
      (refl {a = s.pcb.handled}) (ap (λ x. x ++ a) (sym q.one_accepted))
      (ap (λ x. x ++ d) (sym q.none_delivered))
      (one
        (Pending-cong _ true _ q.value _ false a a d d q.killed q.killed_v q.handled refl refl l))
  where
    one : Pending true q.value false a d → OneKill (q.value ∷ a) d
    one (none_more, once) = inr (q.value, ap (λ x. q.value ∷ x) none_more, once)
before_step e s r a d (inr (inr q)) l =
    Pending-cong true _ s.pcb.killed_v _ false _ a _ (s.pcb.killed_v ∷ d) _ (sym q.was_killed) refl
      (sym q.not_handled) (ap (λ x. x ++ a) (sym q.none_accepted))
      (ap (λ x. x ++ d) (sym q.one_delivered))
      (last
        (Pending-cong _ true _ r.0.pcb.killed_v _ true a a d d q.killed refl q.handled refl refl l))
  where
    last :
        (a ≡ []) × (d ≡ [])
        → (a ≡ []) × ((s.pcb.killed_v ∷ d ≡ []) ⊎ (s.pcb.killed_v ∷ d ≡ s.pcb.killed_v ∷ []))
    last (none_more, none_left) = (none_more, inr (ap (λ x. s.pcb.killed_v ∷ x) none_left))

trace_lem :
    (es : List Event) (s : Cpu) → PendingOf s (accepted (trace es s)) (delivered (trace es s))
unfolding trace
trace_lem [] s = nothing_left s.pcb.killed s.pcb.killed_v s.pcb.handled
trace_lem (e ∷ es) s = before_step e s (step e s) _ _ (step_lem e s) (
    cut_short (is_exit (step e s).1) (step e s).0 (trace es (step e s).0)
      (trace_lem es (step e s).0))

-- In every series of timer interrupts, page faults, calls of sigreturn and simple_signal, and kills,
-- on a new process, up to its exit: the parent is told of one kill at most that it is done,
-- so that a later kill fails though the process is alive; and without one the timer interrupt neither starts a handler nor ends the process; with one it does so
-- once at most, with the value of that kill.
pub one_kill_lem :
    (es : List Event) (i : Bool) (c h : UserContext)
    → OneKill
        (accepted (trace es (record { interrupts = i; pcb = new_pcb c h })))
        (delivered (trace es (record { interrupts = i; pcb = new_pcb c h })))
unfolding new_pcb
one_kill_lem es i c h = trace_lem es (record {
  interrupts = i;
  pcb = record {
    user_context = c;
    in_handler = false;
    handler_eip = 0;
    handler_user_context = h;
    killed = false;
    killed_v = 0;
    handled = false;
  };
})
