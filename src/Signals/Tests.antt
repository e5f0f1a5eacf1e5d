-- ===== src/Signals/Tests.antt =====
-- A process with a handler, which is killed twice.
use simplified_os_kernel.Prelude.{ℕ, ◌≡◌, refl, false, List, [], ◌∷◌}
use simplified_os_kernel.Signals.{
  UserContext, Cpu, new_pcb, yields, enters, exits, returns, switch_processes, exit,
  switch_interrupt, sigreturn, simple_signal, deliver, page_fault, handle_kill, apit_handler, kill,
  Event, timer, fault, sigreturns, signals, kills, step, trace,
}
use simplified_os_kernel.Signals.Nesting.{IsBalanced, saved, trace-IsBalanced}
use simplified_os_kernel.Signals.KillSteps.{accepted, delivered}
use simplified_os_kernel.Signals.Kills.{OneKill, one_kill_lem}

abbrev user_at : ℕ → UserContext
user_at eip = record {
  regs = record { edi = 0; esi = 0; ebp = 0; scratch = 0; ebx = 0; edx = 0; ecx = 0; eax = 0 };
  iframe = record { eip = eip; cs = 27; eflags = 0; esp = 0xEFFF_F000; ss = 35 };
}

abbrev start : Cpu
start = record { interrupts = false; pcb = new_pcb (user_at 0) (user_at 0) }

abbrev events : List Event
events =
    signals 0x8000_4000 (user_at 1)
    ∷ kills 7
    ∷ kills 8
    ∷ timer (user_at 2)
    ∷ timer (user_at 3)
    ∷ sigreturns (user_at 4)
    ∷ fault 5 false (user_at 6)
    ∷ fault 9 false (user_at 7)
    ∷ timer (user_at 8)
    ∷ []

-- The second kill fails; the handler runs for the first, and the process goes on where it was; a
-- fault in the handler for another fault ends it.
a_life :
    trace events start
    ≡ (signals 0x8000_4000 (user_at 1), returns 1)
      ∷ (kills 7, returns 0)
      ∷ (kills 8, returns 0xFFFF_FFFF)
      ∷ (timer (user_at 2), enters 0x8000_4000 0xEFFF_EF74 2 7)
      ∷ (timer (user_at 3), yields (user_at 3))
      ∷ (sigreturns (user_at 4), yields (user_at 2))
      ∷ (fault 5 false (user_at 6), enters 0x8000_4000 0xEFFF_EF74 1 5)
      ∷ (fault 9 false (user_at 7), exits 139)
      ∷ []
unfolding trace step new_pcb simple_signal switch_interrupt switch_processes kill apit_handler
    handle_kill deliver sigreturn page_fault exit
a_life = refl

trace-IsBalanced_example : IsBalanced (saved start) (trace events start)
trace-IsBalanced_example = trace-IsBalanced events start

one_kill_lem_example : OneKill (accepted (trace events start)) (delivered (trace events start))
one_kill_lem_example = one_kill_lem events false (user_at 0) (user_at 0)
