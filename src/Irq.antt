-- ===== src/Irq.antt =====
-- Interrupts, kernel/irq/interrupt.c: the handler, and the system call that it starts. The processes
-- are those of the scheduler; the idle process stands beside its list. The keys of the keyboard go to
-- `send_key`, which can wake threads up and is a parameter, `S` its state.
pub mod Syscall
pub mod Saved
pub mod Ends
pub mod Delivery
mod Tests
use pi_os.Common.{
  ℕ, ◌+◌, ◌/◌, ◌%◌, Bool, true, false, ◌&&◌, ◌||◌, not, Option, none, some, List, [], ◌∷◌, ◌==◌,
  if◌then◌else◌, get_or, set,
}
use pi_os.Libk.Semaphore.{Counts}
use pi_os.Driver.Keyboard.{Keyboard, print_scancode}
use pi_os.Proc.{ProcState, Proc, unloaded, syscall, syscall_blocked, dead, type_init, type_kernel}
use pi_os.Proc.Signals.{signal_send_sigchld}
use pi_os.Proc.Sched.{Sched, Pick, done, out_of_fuel, panics, sched_pick_next}

-- `struct int_handler_state`
pub record Frame : Type 0 where
  pub regs : List ℕ
  pub pc : ℕ
  pub arith_flags : ℕ
  pub irq_flags : ℕ

-- What the interrupt controller has pending: a scan code, and the timer.
pub record Pending : Type 0 where
  pub scancode : Option ℕ
  pub timer : Bool

pub record Cpu (S : Type 0) : Type 0 where
  pub in_interrupt_handler : Bool
  pub scheduling_enabled : Bool
  pub sched : Sched
  pub idle : Proc
  pub keyboard : Keyboard
  pub devices : S

abbrev pub SendKey : Type 0 → Type 0
SendKey S = (key : ℕ) → Counts → S → Option (Counts × S)

-- How the handler ends: it never returns to its caller. It enters `int_sys_call` on a stack, or it
-- switches to the current process.
pub data HandlerEnd (S : Type 0) : Type 0 where
  double_fault : HandlerEnd S
  irq_panics : HandlerEnd S
  hangs : HandlerEnd S
  enters_syscall : (stack_page : ℕ) → Cpu S → HandlerEnd S
  switches : Cpu S → HandlerEnd S

-- `IN_KERNEL`
abbrev pub in_kernel : Proc → Bool
in_kernel p = (p.kind == type_kernel) || (p.state == syscall) || (p.state == syscall_blocked)

-- `irq_flags & SFLAG_SYSCALL` and `irq_flags & SFLAG_SEGFAULT`
abbrev pub is_syscall : ℕ → Bool
is_syscall irq_flags = irq_flags / 2 % 2 == 1

abbrev pub is_segfault : ℕ → Bool
is_segfault irq_flags = irq_flags / 8 % 2 == 1

abbrev pub proc_at : Proc → List Proc → Option ℕ → Proc
proc_at idle procs none = idle
proc_at idle procs (some i) = get_or procs i idle

module _ {S : Type 0} where
  abbrev pub current_proc : Cpu S → Proc
  current_proc cpu = proc_at cpu.idle cpu.sched.procs cpu.sched.current

  abbrev pub put_at : Option ℕ → Cpu S → Proc → Cpu S
  put_at none cpu p = record cpu { idle = p }
  put_at (some i) cpu p = record cpu {
    sched = record cpu.sched { procs = set cpu.sched.procs i p };
  }

  -- A write to the current process.
  abbrev pub put_current : Cpu S → Proc → Cpu S
  put_current cpu p = put_at cpu.sched.current cpu p

  abbrev pub save_state : Cpu S → Frame → Cpu S
  save_state cpu frame =
      let p = current_proc cpu in
      put_current cpu (record p {
        proc_state = record p.proc_state {
          regs = frame.regs;
          pc = frame.pc;
          arith_flags = frame.arith_flags;
        };
      })

  -- A process that is killed by a fault returns 139.
  unfoldable pub kill_current : Cpu S → Cpu S
  kill_current cpu =
      let p = current_proc cpu in
      let p' = record p {
        state = dead;
        proc_state = record p.proc_state { regs = set p.proc_state.regs 0 139 };
      } in
      let killed = put_current cpu p' in
      let (procs, counts) = signal_send_sigchld killed.sched.counts killed.sched.procs p' p' in
      record killed { sched = record killed.sched { procs = procs; counts = counts } }

  -- The state behind the test for a fault, the flags and `should_switch_thread`; `none` is the panic.
  unfoldable pub handle_segfault : Cpu S → (irq_flags : ℕ) → Option (Cpu S × (ℕ × Bool))
  handle_segfault cpu irq_flags =
      if is_segfault irq_flags
      then (if in_kernel (current_proc cpu) then none else some (kill_current cpu, (0, true)))
      else some (cpu, (irq_flags, false))

  -- `sys_ticks++` on `unsigned long`
  abbrev pub tick : Bool → Cpu S → Cpu S
  tick timer cpu =
      if timer
      then record cpu {
        sched = record cpu.sched { sys_ticks = (cpu.sched.sys_ticks + 1) % 0x1_0000_0000 };
      }
      else cpu

  -- `ASSERT(current_proc->state != PROC_STATE_UNLOADED)`, and the switch
  abbrev pub switch_checked : Cpu S → HandlerEnd S
  switch_checked cpu = if (current_proc cpu).state == unloaded then irq_panics else switches cpu

  -- The choice of a process, when it ends, and the rest.
  abbrev pub with_picked : Cpu S → (Cpu S → HandlerEnd S) → Pick → HandlerEnd S
  with_picked cpu rest (done sched) = rest (record cpu { sched = sched })
  with_picked cpu rest out_of_fuel = hangs
  with_picked cpu rest panics = irq_panics

  -- The end of the handler, behind the devices.
  unfoldable pub leave :
      (fuel : ℕ) → (irq_flags : ℕ) → (should_switch : Bool) → Cpu S → HandlerEnd S
  leave fuel irq_flags should_switch cpu =
      let p = current_proc cpu in
      let out = record cpu { in_interrupt_handler = false } in
      if is_syscall irq_flags && not (in_kernel p)
      then enters_syscall p.kernel_stack_page cpu
      else if should_switch
      then with_picked out switch_checked (sched_pick_next fuel out.sched)
      else switch_checked out

-- `send_key` is a parameter: it hands a key on to the terminal and to the keyboard's file, and is `none`
-- when an `ASSERT` of them fails. `behind` is that of `print_scancode`.
module _ {S : Type 0} (behind : (shift : Bool) → (scancode : ℕ) → ℕ) (send_key : SendKey S) where
  abbrev pub then_send :
      Option (Counts × S) → (Counts → S → Option (Counts × S)) → Option (Counts × S)
  then_send none rest = none
  then_send (some (counts, devices)) rest = rest counts devices

  unfoldable pub send_keys : List ℕ → Counts → S → Option (Counts × S)
  send_keys [] counts devices = some (counts, devices)
  send_keys (key ∷ keys) counts devices = then_send (send_key key counts devices) (send_keys keys)

  abbrev pub after_keys : Cpu S → Keyboard → Option (Counts × S) → Option (Cpu S)
  after_keys cpu keyboard none = none
  after_keys cpu keyboard (some (counts, devices)) = some (record cpu {
    sched = record cpu.sched { counts = counts };
    keyboard = keyboard;
    devices = devices;
  })

  unfoldable pub handle_keyboard : Option ℕ → Cpu S → Option (Cpu S)
  handle_keyboard none cpu = some cpu
  handle_keyboard (some scancode) cpu =
      let (keyboard, keys) = print_scancode behind cpu.keyboard scancode in
      after_keys cpu keyboard (send_keys keys cpu.sched.counts cpu.devices)

  -- `sys_ticks++`, and the rest, unless the keyboard has failed
  abbrev pub tick_and_leave :
      (fuel irq_flags : ℕ) → (should_switch timer : Bool) → Option (Cpu S) → HandlerEnd S
  tick_and_leave fuel irq_flags should_switch timer none = irq_panics
  tick_and_leave fuel irq_flags should_switch timer (some cpu) =
      leave fuel irq_flags should_switch (tick timer cpu)

  -- `killed` is the `should_switch_thread` of the fault.
  abbrev pub handle_devices : (fuel : ℕ) → Pending → Option (Cpu S × (ℕ × Bool)) → HandlerEnd S
  handle_devices fuel pending none = irq_panics
  handle_devices fuel pending (some (cpu, (irq_flags, killed))) =
      let p = current_proc cpu in
      tick_and_leave fuel irq_flags
        (killed || (is_syscall irq_flags && in_kernel p) || (p.kind == type_init) || pending.timer)
        pending.timer (handle_keyboard pending.scancode cpu)

  -- `fuel` is that of the loop of `sched_pick_next`.
  unfoldable pub interrupt : (fuel : ℕ) → Pending → Cpu S → Frame → HandlerEnd S
  interrupt fuel pending cpu frame =
      if cpu.in_interrupt_handler
      then double_fault
      else if cpu.scheduling_enabled
      then handle_devices fuel pending (
          handle_segfault (save_state (record cpu { in_interrupt_handler = true }) frame)
            frame.irq_flags)
      else irq_panics
