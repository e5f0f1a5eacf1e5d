-- ===== src/Buffer/Tests.antt =====
-- A buffer of one slot: two puts, of which the second waits, and a get, on two cores.
use simplified_os_kernel.Prelude.{ℕ, ◌≤◌, ◌≡◌, refl, some, [], ◌∷◌, ◌++◌, length, All}
use mathlib.Core.List.{Memᴰ}
use simplified_os_kernel.Semaphore.{make, down, up}
use simplified_os_kernel.Buffer.{
  up_full, work_put, remove_value, wrote, Buffer, new_buffer, put, get, begin, advance,
  remove_first, pick, Reach, fresh, after, puts, gets, starts, advances,
}
use simplified_os_kernel.Buffer.Count.{GoesOn, length-queue-le, reached_advance}
use simplified_os_kernel.Buffer.Order.{read, written, read-queue}

abbrev one_put : Buffer ℕ
unfolding put new_buffer down make
one_put = put 5 0 (new_buffer 1)

one_put-Reach : Reach 1 one_put
unfolding put one_put
one_put-Reach = after (puts 5 0) fresh

-- The value is in the queue, and is not counted yet.
abbrev stored : Buffer ℕ
stored = record {
  queue = 5 ∷ [];
  n_full = record { count = 0; waiting = [] };
  n_empty = record { count = 0; waiting = [] };
  ready = [];
  running = up_full 5 0 ∷ [];
  ops = wrote 0 5 ∷ [];
  log = [];
}

stored-Reach : Reach 1 stored
unfolding one_put pick begin advance
stored-Reach = after (advances 0 refl refl) (after (starts 0 refl) one_put-Reach)

-- A getter has come and waits; the count of the putter wakes it, and it starts on another core, before
-- the work of the putter has run.
abbrev two_run : Buffer ℕ
two_run = record stored { running = remove_value 9 ∷ work_put 5 0 ∷ [] }

two_run-Reach : Reach 1 two_run
unfolding get down pick advance up begin
two_run-Reach = after (starts 0 refl) (after (advances 0 refl refl) (after (gets 9) stored-Reach))

-- The getter has the value, and has not freed the slot.
received : (remove_first 9 (5 ∷ []) two_run) ≡ advance (remove_value 9) two_run
unfolding advance
received = refl

length-queue-le_example : length two_run.queue ≤ 1
length-queue-le_example = length-queue-le 1 two_run-Reach

two_run_picked : pick two_run.running 0 ≡ some (remove_value 9, work_put 5 0 ∷ [])
unfolding pick
two_run_picked = refl

reached_advance_example :
    (c' : Buffer ℕ) × (advance (remove_value 9) (record two_run { running = work_put 5 0 ∷ [] })
      ≡ some c')
    × GoesOn (remove_value 9) (work_put 5 0 ∷ []) c'.running
reached_advance_example = reached_advance 1 0 two_run-Reach two_run_picked

read-queue_example :
    (read two_run.ops ++ two_run.queue ≡ written two_run.ops)
    × All (λ d. Memᴰ d two_run.ops) two_run.log
read-queue_example = read-queue 1 two_run-Reach
