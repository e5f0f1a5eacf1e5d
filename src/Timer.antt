-- ===== src/Timer.antt =====
-- The timer queue of kernel/events.cc, a list of its entries from the head, and the loop of event_loop that takes the
-- due events out of it. The lock makes each call one step.
pub mod Due
mod Tests
use simplified_os_kernel.Prelude.{
  ℕ, zero, suc, ◌+◌, Bool, Option, none, some, List, [], ◌∷◌, ◌++◌, ltb, leb, ◌==◌, if◌then◌else◌,
}
use simplified_os_kernel.Prelude.Words.{add32}

module _ (E : Type 0) where
  pub record PqEntry : Type 0 where
    pub at_time : ℕ
    pub event : E

  abbrev pub Pq : Type 0
  Pq = List PqEntry

module _ {E : Type 0} where
  unfoldable pub add : ℕ → E → Pq E → Pq E
  add t e [] = record { at_time = t; event = e } ∷ []
  add t e (p ∷ q) =
      let rest = add t e q in
      if ltb t p.at_time then record { at_time = t; event = e } ∷ p ∷ q else p ∷ rest

  unfoldable pub remove_if_ready : ℕ → Pq E → Option E × Pq E
  remove_if_ready jiffies [] = (none, [])
  remove_if_ready jiffies (p ∷ q) =
      if leb p.at_time jiffies then (some p.event, q) else (none, p ∷ q)

  -- What the loop makes of the outcome of `remove_if_ready`; `more` is the next round.
  unfoldable pub drain_round :
      (List E → Option (List E × Pq E)) → List E → Pq E → Option E → Option (List E × Pq E)
  drain_round more ready q none = some (ready, q)
  drain_round more ready q (some e) = more (ready ++ (e ∷ []))

  -- At most `fuel` rounds of the loop at one value of `jiffies`: the ready queue and the timer queue, or none
  -- when the loop has not ended.
  unfoldable pub drain : ℕ → ℕ → List E → Pq E → Option (List E × Pq E)
  unfolding drain_round
  drain zero jiffies ready q = none
  drain (suc fuel) jiffies ready q =
      let r = remove_if_ready jiffies q in
      drain_round (λ ready'. drain fuel jiffies ready' r.1) ready r.1 r.0

  -- `go(work, delay)`: the ready queue and the timer queue.
  unfoldable pub go : ℕ → ℕ → E → List E × Pq E → List E × Pq E
  go jiffies delay e r =
      if delay == 0
      then (r.0 ++ (e ∷ []), r.1)
      else (r.0, add (add32 (add32 jiffies delay) 1) e r.1)
