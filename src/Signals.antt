-- ===== src/Signals.antt =====
-- Signals and exits of one process: kill, simple_signal, sigreturn and exit of kernel/sys.cc, the timer interrupt of
-- kernel/pit.cc, and the part of vmm_pageFault of kernel/vmm.cc for an address outside the regions. A
-- function of the source that does not return ends in what the processor does next.
pub mod Nesting
pub mod KillSteps
pub mod Kills
mod Tests
use simplified_os_kernel.Prelude.{
  ℕ, zero, suc, ◌%◌, Bool, true, false, not, ◌&&◌, ◌||◌, Option, none, some, List, [], ◌∷◌, ◌==◌,
  if◌then◌else◌,
}
use simplified_os_kernel.Prelude.Words.{minus_one, sub32}

pub record Registers : Type 0 where
  pub edi : ℕ
  pub esi : ℕ
  pub ebp : ℕ
  pub scratch : ℕ
  pub ebx : ℕ
  pub edx : ℕ
  pub ecx : ℕ
  pub eax : ℕ

pub record IFrame : Type 0 where
  pub eip : ℕ
  pub cs : ℕ
  pub eflags : ℕ
  pub esp : ℕ
  pub ss : ℕ

pub record UserContext : Type 0 where
  pub regs : Registers
  pub iframe : IFrame

-- The fields of a PCB that signals use.
pub record Pcb : Type 0 where
  pub user_context : UserContext
  pub in_handler : Bool
  pub handler_eip : ℕ
  pub handler_user_context : UserContext
  pub killed : Bool
  pub killed_v : ℕ
  pub handled : Bool

-- The process that runs, and whether a timer interrupt came while it was in the kernel.
pub record Cpu : Type 0 where
  pub interrupts : Bool
  pub pcb : Pcb

-- The contexts are those that the memory of the new PCB holds.
unfoldable pub new_pcb : UserContext → UserContext → Pcb
new_pcb c h = record {
  user_context = c;
  in_handler = false;
  handler_eip = 0;
  handler_user_context = h;
  killed = false;
  killed_v = 0;
  handled = false;
}

-- Next: the process is ready again with a context, and the event loop runs; or the handler starts with a kind
-- and an argument, put on the stack with the return address 0x2000; or the process ends; or a call
-- returns; or the page of an address is mapped; or the interrupted kernel goes on.
pub data Next : Type 0 where
  yields : (c : UserContext) → Next
  enters : (eip esp kind arg : ℕ) → Next
  exits : (v : ℕ) → Next
  returns : (v : ℕ) → Next
  maps : (va : ℕ) → Next
  defers : Next

unfoldable pub switch_processes : UserContext → Cpu → Cpu × Next
switch_processes c s =
    (record { interrupts = false; pcb = record (s.pcb) { user_context = c } }, yields c)

-- `exit_future.set(value)` is of the module Future.
unfoldable pub exit : ℕ → Cpu → Cpu × Next
exit v s = (record s { interrupts = false }, exits v)

abbrev pub with_eax : ℕ → UserContext → UserContext
with_eax v c = record c { regs = record (c.regs) { eax = v } }

unfoldable pub switch_interrupt : UserContext → ℕ → Cpu → Cpu × Next
switch_interrupt c v s =
    if s.interrupts
    then switch_processes (with_eax v c) (record s { interrupts = false })
    else (s, returns v)

-- The call, and the way back from it.
unfoldable pub sigreturn : UserContext → Cpu → Cpu × Next
sigreturn c s =
    if not s.pcb.in_handler
    then switch_interrupt c minus_one s
    else switch_processes s.pcb.handler_user_context
        (record s { pcb = record (s.pcb) { in_handler = false } })

unfoldable pub simple_signal : ℕ → UserContext → Cpu → Cpu × Next
simple_signal eip c s =
    switch_interrupt c 1 (record s { pcb = record (s.pcb) { handler_eip = eip } })

-- The handler is called below the 128 bytes under the stack pointer.
unfoldable pub deliver : ℕ → ℕ → UserContext → Cpu → Cpu × Next
deliver kind arg c s = (
  record s { pcb = record (s.pcb) { handler_user_context = c; in_handler = true } },
  enters s.pcb.handler_eip (sub32 (sub32 c.iframe.esp 128) 12) kind arg,
)

-- `inside` tells whether a region has the address.
unfoldable pub page_fault : ℕ → Bool → UserContext → Cpu → Cpu × Next
page_fault va inside c s =
    if s.pcb.in_handler && va == 0x2000
    then sigreturn c s
    else if inside
    then (s, maps va)
    else if s.pcb.handler_eip == 0 || s.pcb.in_handler
    then exit 139 s
    else deliver 1 va c s

unfoldable pub handle_kill : UserContext → Cpu → Cpu × Next
handle_kill c s =
    let s' : Cpu = record s { pcb = record (s.pcb) { handled = true } } in
    if s.pcb.handler_eip == 0 then exit s.pcb.killed_v s' else deliver 2 s.pcb.killed_v c s'

unfoldable pub apit_handler : UserContext → Cpu → Cpu × Next
apit_handler c s =
    if c.iframe.cs % 4 == 0
    then (record s { interrupts = true }, defers)
    else if s.pcb.killed && (not s.pcb.handled && not s.pcb.in_handler)
    then handle_kill c s
    else switch_processes c s

-- kill of the parent, when this process is the child that it peeks at; the value that the parent gets.
unfoldable pub kill : ℕ → Cpu → Cpu × ℕ
kill v s =
    if s.pcb.killed || s.pcb.handled
    then (s, minus_one)
    else (record s { pcb = record (s.pcb) { killed = true; killed_v = v } }, 0)

-- What can happen to the process; a call comes with the context of its caller.
pub data Event : Type 0 where
  timer : (c : UserContext) → Event
  fault : (va : ℕ) (inside : Bool) (c : UserContext) → Event
  sigreturns : (c : UserContext) → Event
  signals : (eip : ℕ) (c : UserContext) → Event
  kills : (v : ℕ) → Event

-- The parent's call of kill leaves the process as it goes on, and returns to the parent.
unfoldable pub step : Event → Cpu → Cpu × Next
step (timer c) s = apit_handler c s
step (fault va inside c) s = page_fault va inside c s
step (sigreturns c) s = sigreturn c s
step (signals eip c) s = simple_signal eip c s
step (kills v) s = let r = kill v s in (r.0, returns r.1)

abbrev pub is_exit : Next → Bool
is_exit (yields c) = false
is_exit (enters eip esp kind arg) = false
is_exit (exits v) = true
is_exit (returns v) = false
is_exit (maps va) = false
is_exit defers = false

-- The events, each with what comes next, up to an exit.
unfoldable pub trace : List Event → Cpu → List (Event × Next)
trace [] s = []
trace (e ∷ es) s =
    let r = step e s in let rest = trace es r.0 in (e, r.1) ∷ (if is_exit r.1 then [] else rest)
