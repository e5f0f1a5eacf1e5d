-- ===== src/Buffer/Order.antt =====
-- A bounded buffer is first in, first out.
use simplified_os_kernel.Prelude.{
  ℕ, zero, suc, ◌≡◌, refl, some, List, [], ◌∷◌, ◌++◌, append_assoc, append-nil, Option-cases, ap,
  sym, ◌∙◌, inl, inr, some_inj, subst, All,
}
use mathlib.Core.List.{Memᴰ}
use mathlib.Core.List.Memᴰ
use simplified_os_kernel.Semaphore.{up}
use simplified_os_kernel.Buffer.{
  Event, put_slot, take_slot, Running, add_value, up_full, work_put, remove_value, up_empty,
  work_get, Done, wrote, got, Buffer, new_buffer, put, get, begin, filled, freed, remove_first,
  advance, pick, Step, puts, gets, starts, advances, Reach, fresh, after,
}

module _ {T : Type 0} where
  abbrev pub written : List (Done T) → List T
  written [] = []
  written (wrote w v ∷ log) = v ∷ written log
  written (got g v ∷ log) = written log

  abbrev pub read : List (Done T) → List T
  read [] = []
  read (wrote w v ∷ log) = read log
  read (got g v ∷ log) = v ∷ read log

  written-append : (xs ys : List (Done T)) → written (xs ++ ys) ≡ written xs ++ written ys
  written-append [] ys = refl
  written-append (wrote w v ∷ xs) ys = ap (λ l. v ∷ l) (written-append xs ys)
  written-append (got g v ∷ xs) ys = written-append xs ys

  read-append : (xs ys : List (Done T)) → read (xs ++ ys) ≡ read xs ++ read ys
  read-append [] ys = refl
  read-append (wrote w v ∷ xs) ys = read-append xs ys
  read-append (got g v ∷ xs) ys = ap (λ l. v ∷ l) (read-append xs ys)

  -- The operation of the queue that a closure has behind it.
  abbrev pub IsBehind : List (Done T) → Running T → Type 0
  IsBehind ops (add_value v w) = Unit {0}
  IsBehind ops (up_full v w) = Memᴰ (wrote w v) ops
  IsBehind ops (work_put v w) = Memᴰ (wrote w v) ops
  IsBehind ops (remove_value g) = Unit {0}
  IsBehind ops (up_empty g v) = Memᴰ (got g v) ops
  IsBehind ops (work_get g v) = Memᴰ (got g v) ops

  -- What was received, then what is in the queue, is what was stored; and each closure works with the
  -- value that it stored or received.
  pub record IsFifo (b : Buffer T) : Type 0 where
    pub order : read b.ops ++ b.queue ≡ written b.ops
    pub going : All (IsBehind b.ops) b.running
    pub done : All (λ d. Memᴰ d b.ops) b.log

  more-IsBehind :
      (ops : List (Done T)) (d : Done T) (r : Running T)
      → IsBehind ops r
      → IsBehind (ops ++ (d ∷ [])) r
  more-IsBehind ops d (add_value v w) h = tt
  more-IsBehind ops d (up_full v w) h = Memᴰ.append_left (d ∷ []) h
  more-IsBehind ops d (work_put v w) h = Memᴰ.append_left (d ∷ []) h
  more-IsBehind ops d (remove_value g) h = tt
  more-IsBehind ops d (up_empty g v) h = Memᴰ.append_left (d ∷ []) h
  more-IsBehind ops d (work_get g v) h = Memᴰ.append_left (d ∷ []) h

  more_going :
      (ops : List (Done T)) (d : Done T) (rs : List (Running T))
      → All (IsBehind ops) rs
      → All (IsBehind (ops ++ (d ∷ []))) rs
  more_going ops d [] h = tt
  more_going ops d (r ∷ rs) h = (more-IsBehind ops d r h.0, more_going ops d rs h.1)

  more_done :
      (ops : List (Done T)) (d : Done T) (log : List (Done T))
      → All (λ e. Memᴰ e ops) log
      → All (λ e. Memᴰ e (ops ++ (d ∷ []))) log
  more_done ops d [] h = tt
  more_done ops d (e ∷ log) h = (Memᴰ.append_left (d ∷ []) h.0, more_done ops d log h.1)

  last_op : (ops : List (Done T)) (d : Done T) → Memᴰ d (ops ++ (d ∷ []))
  last_op ops d = Memᴰ.append_right ops (Memᴰ.head refl)

  picked_going :
      (ops : List (Done T)) (rs : List (Running T)) (i : ℕ) (r : Running T)
      (rest : List (Running T))
      → pick rs i ≡ some (r, rest)
      → All (IsBehind ops) rs
      → IsBehind ops r × All (IsBehind ops) rest
  unfolding pick
  picked_going ops [] i r rest e h = absurd (cc e)
  picked_going ops (d ∷ rs) zero r rest e h =
      subst (All (IsBehind ops)) (ap together (some_inj _ _ e)) h
    where
      together : Running T × List (Running T) → List (Running T)
      together p = p.0 ∷ p.1
  picked_going ops (d ∷ rs) (suc i) r rest e h = elim (Option-cases (pick rs i)) [
    | inl gone ↦ absurd (cc (rw gone at e))
    | inr ((r', rest'), there) ↦
        let (a, others) = picked_going ops rs i r' rest' there h.1 in
        let parts = some_inj (r', d ∷ rest') (r, rest) (rw there at e) in
        (
          subst (IsBehind ops) (ap (λ (p : Running T × List (Running T)). p.0) parts) a,
          subst (All (IsBehind ops)) (ap (λ (p : Running T × List (Running T)). p.1) parts)
              (h.0, others),
        )
  ]

  wrote_order :
      (ops : List (Done T)) (queue : List T) (v : T) (w : ℕ)
      → read ops ++ queue ≡ written ops
      → read (ops ++ (wrote w v ∷ [])) ++ (queue ++ (v ∷ [])) ≡ written (ops ++ (wrote w v ∷ []))
  wrote_order ops queue v w f =
      ap (λ l. l ++ (queue ++ (v ∷ []))) (read-append ops (wrote w v ∷ []) ∙ append-nil (read ops))
      ∙ sym (append_assoc (read ops) queue (v ∷ []))
      ∙ ap (λ l. l ++ (v ∷ [])) f
      ∙ sym (written-append ops (wrote w v ∷ []))

  got_order :
      (ops : List (Done T)) (rest : List T) (v : T) (g : ℕ)
      → read ops ++ (v ∷ rest) ≡ written ops
      → read (ops ++ (got g v ∷ [])) ++ rest ≡ written (ops ++ (got g v ∷ []))
  got_order ops rest v g f =
      ap (λ l. l ++ rest) (read-append ops (got g v ∷ []))
      ∙ append_assoc (read ops) (v ∷ []) rest
      ∙ f
      ∙ sym (append-nil (written ops))
      ∙ sym (written-append ops (got g v ∷ []))

  remove_first-IsFifo :
      (g : ℕ) (q : List T) (b c : Buffer T)
      → IsFifo b
      → b.queue ≡ q
      → remove_first g q b ≡ some c
      → IsFifo c
  unfolding remove_first
  remove_first-IsFifo g [] b c f eq h = absurd (cc h)
  remove_first-IsFifo g (v ∷ rest) b c f eq h = subst IsFifo (some_inj _ c h) (record {
    order = got_order b.ops rest v g (ap (λ q. read b.ops ++ q) (sym eq) ∙ f.order);
    going = (last_op b.ops (got g v), more_going b.ops (got g v) b.running f.going);
    done = more_done b.ops (got g v) b.log f.done;
  })

  logged :
      (ops log : List (Done T)) (d : Done T)
      → All (λ e. Memᴰ e ops) log
      → Memᴰ d ops
      → All (λ e. Memᴰ e ops) (log ++ (d ∷ []))
  logged ops [] d h m = (m, tt)
  logged ops (e ∷ log) d h m = (h.0, logged ops log d h.1 m)

  advance-IsFifo :
      (r : Running T) (b c : Buffer T)
      → IsBehind b.ops r
      → IsFifo b
      → advance r b ≡ some c
      → IsFifo c
  unfolding advance
  advance-IsFifo (add_value v w) b c m f h = subst IsFifo (some_inj _ c h) (record {
    order = wrote_order b.ops b.queue v w f.order;
    going = (last_op b.ops (wrote w v), more_going b.ops (wrote w v) b.running f.going);
    done = more_done b.ops (wrote w v) b.log f.done;
  })
  advance-IsFifo (up_full v w) b c m f h = elim (Option-cases (up b.n_full b.ready)) [
    | inl gone ↦ absurd (cc (rw (gone, advance) at h))
    | inr (r, e) ↦
        subst IsFifo (some_inj (filled v w b r) c (rw (e, advance) at h))
          (record { order = f.order; going = (m, f.going); done = f.done })
  ]
  advance-IsFifo (work_put v w) b c m f h =
      subst IsFifo (some_inj _ c h) (record {
        order = f.order;
        going = f.going;
        done = logged b.ops b.log (wrote w v) f.done m;
      })
  advance-IsFifo (remove_value g) b c m f h = remove_first-IsFifo g b.queue b c f refl h
  advance-IsFifo (up_empty g v) b c m f h = elim (Option-cases (up b.n_empty b.ready)) [
    | inl gone ↦ absurd (cc (rw (gone, advance) at h))
    | inr (r, e) ↦
        subst IsFifo (some_inj (freed g v b r) c (rw (e, advance) at h))
          (record { order = f.order; going = (m, f.going); done = f.done })
  ]
  advance-IsFifo (work_get g v) b c m f h =
      subst IsFifo (some_inj _ c h)
        (record { order = f.order; going = f.going; done = logged b.ops b.log (got g v) f.done m })

  begun : (ops : List (Done T)) (e : Event T) → IsBehind ops (begin e)
  unfolding begin
  begun ops (put_slot v w) = tt
  begun ops (take_slot g) = tt

  Step-IsFifo : {b c : Buffer T} → Step b c → IsFifo b → IsFifo c
  unfolding put get
  Step-IsFifo (puts v w) f = record { order = f.order; going = f.going; done = f.done }
  Step-IsFifo (gets g) f = record { order = f.order; going = f.going; done = f.done }
  Step-IsFifo {b} (starts i {e} {rest} picked) f = record {
    order = f.order;
    going = (begun b.ops e, f.going);
    done = f.done;
  }
  Step-IsFifo {b} {c} (advances i {r} {rest} picked ran) f =
      let (m, others) = picked_going b.ops b.running i r rest picked f.going in
      advance-IsFifo r (record b { running = rest }) c m
        (record { order = f.order; going = others; done = f.done }) ran

  reach-IsFifo : (n : ℕ) {c : Buffer T} → Reach n c → IsFifo c
  unfolding new_buffer
  reach-IsFifo n fresh = record { order = refl; going = tt; done = tt }
  reach-IsFifo n (after st r) = Step-IsFifo st (reach-IsFifo n r)

  -- Whatever the cores do with a new buffer, with the steps of their closures in any order: the values
  -- that getters took out of the queue, in the order in which they did, followed by those still in the
  -- queue, are the values that putters stored, in the order in which they did; and each `work` that
  -- has run is that of a get with the value that this get took out, or of a put that stored its value.
  -- The works of several cores may run in another order.
  pub read-queue :
      (n : ℕ) {c : Buffer T}
      → Reach n c
      → (read c.ops ++ c.queue ≡ written c.ops) × All (λ d. Memᴰ d c.ops) c.log
  read-queue n r = let f = reach-IsFifo n r in (f.order, f.done)
