-- ===== src/Irq/Ends.antt =====
-- How the handler of interrupts ends when nothing fails.
use pi_os.Common.{ℕ, ◌≡◌, Bool, true, false, ◌&&◌, ◌||◌, none, some, ◌==◌, ◌⊎◌, get_elem?}
use pi_os.Driver.Keyboard.{Keyboard}
use pi_os.Proc.{Proc, unloaded, type_init}
use pi_os.Proc.Sched.{Sched, is_ready}
use pi_os.Irq.{Frame, Pending, Cpu, HandlerEnd, enters_syscall, switches, is_syscall, in_kernel}

-- The current process is one of the list and ready, or the idle process.
abbrev pub RunsReady : {S : Type 0} → Cpu S → Type 0
RunsReady cpu =
    ((k : ℕ) × (q : Proc) × (cpu.sched.current ≡ some k)
      × (get_elem? cpu.sched.procs k ≡ some q)
      × (is_ready q ≡ true))
    ⊎ (cpu.sched.current ≡ none)

-- Where place `i`, which holds `p`, is still the current one.
abbrev pub RunsOn : {S : Type 0} → ℕ → Proc → Cpu S → Type 0
RunsOn i p cpu = (cpu.sched.current ≡ some i) × (get_elem? cpu.sched.procs i ≡ some p)

-- The end that an interrupt of `p` at place `i` should have, by whether it is a system call of the
-- process, and whether it gives another process a turn.
abbrev pub GoesOn : {S : Type 0} → (calls turn : Bool) → (i : ℕ) → Proc → HandlerEnd S → Type 0
GoesOn true turn i p (enters_syscall page cpu) = (page ≡ p.kernel_stack_page) × RunsOn i p cpu
GoesOn false true i p (switches cpu) = RunsReady cpu
GoesOn false false i p (switches cpu) = RunsOn i p cpu
GoesOn calls turn i p other = ⊥

-- The state of the handler after the registers are saved in place `i`, where the scheduler has stopped.
record IsAt {S : Type 0} (i : ℕ) (p : Proc) (cpu : Cpu S) : Type 0 where
  current : cpu.sched.current ≡ some i
  last : cpu.sched.last_element ≡ some i
  here : get_elem? cpu.sched.procs i ≡ some p
  idle_loaded : (cpu.idle.state == unloaded) ≡ false

-- Scheduling is enabled, the handler is not running, and place `i` runs, where the scheduler stopped.
abbrev pub running : {S : Type 0} → Sched → Proc → Keyboard → S → (i : ℕ) → Cpu S
running sched idle keyboard devices i = record {
  in_interrupt_handler = false;
  scheduling_enabled = true;
  sched = record sched { current = some i; last_element = some i };
  idle = idle;
  keyboard = keyboard;
  devices = devices;
}

-- Whether the handler has a reason to let the scheduler choose: a kernel thread that yields, the
-- first process, or the timer.
abbrev pub gives_turn : Frame → Pending → Proc → Bool
gives_turn frame pending p =
    (is_syscall frame.irq_flags && in_kernel p) || (p.kind == type_init) || pending.timer
