-- ===== src/Irq/Syscall.antt =====
-- kernel/irq/interrupt.c: `int_sys_call`, around `process_syscall`.
use pi_os.Common.{
  ℕ, ◌-◌, false, ◌&&◌, not, Option, none, some, List, [], ◌∷◌, ltb, ◌==◌, if◌then◌else◌, set,
}
use pi_os.Common.Word.{is_neg16}
use pi_os.Libk.Semaphore.{Counts, update}
use pi_os.Proc.{Signal, Proc, runnable, syscall, dead}
use pi_os.Proc.Threads.{count_from}
use pi_os.Proc.Virtual.{Memory, illegal_page}
use pi_os.Proc.Handler.{signal_handler_enter}
use pi_os.Proc.Sched.{sched_pick_next}
use pi_os.Irq.{Cpu, HandlerEnd, irq_panics, switches, current_proc, put_current, with_picked}

-- The process as a thread of the kernel, its own state put aside.
unfoldable pub enter_call : Proc → Proc
enter_call p = record p {
  syscall_state = p.proc_state;
  proc_state = record p.proc_state {
    mem_pages = set (set (count_from 16 0x200) 0 illegal_page) 15 p.kernel_stack_page;
    prog_pages = count_from 16 0;
  };
  state = syscall;
}

-- A process in memory, with the counts of the semaphores.
pub record Ending : Type 0 where
  pub proc : Proc
  pub mem : Memory
  pub counts : Counts

-- The signal is removed from the queue, and its count taken; `none` is a failed `ASSERT`.
abbrev pub pop_signal : Counts → List Signal → Option (Memory × Proc) → Option Ending
pop_signal counts later none = none
pop_signal counts later (some (mem, p)) =
    let count = counts p.signal_sema in
    if ltb 0 count && not (is_neg16 count)
    then some (record {
      proc = record p { signal_queue = later };
      mem = mem;
      counts = update counts p.signal_sema (count - 1);
    })
    else none

abbrev pub deliver_first : Memory → Counts → Proc → List Signal → Option Ending
deliver_first mem counts p [] = some (record { proc = p; mem = mem; counts = counts })
deliver_first mem counts p (signal ∷ later) =
    if (p.signals_hold == 0) && not (p.sighandler == 0)
    then pop_signal counts later (signal_handler_enter mem p signal)
    else some (record { proc = p; mem = mem; counts = counts })

abbrev pub back_to_user : Option Ending → Option Ending
back_to_user none = none
back_to_user (some e) = some (record e { proc = record e.proc { state = runnable } })

-- The end of a call of a process that is alive.
unfoldable pub leave_call : Memory → Counts → Proc → Option Ending
leave_call mem counts p =
    back_to_user
      (deliver_first mem counts (record p { proc_state = p.syscall_state }) p.signal_queue)

module _ {S : Type 0} where
  -- `int_sys_call` up to `process_syscall`
  unfoldable pub begin_sys_call : Cpu S → Cpu S
  begin_sys_call cpu =
      put_current (record cpu { in_interrupt_handler = false }) (enter_call (current_proc cpu))

  abbrev pub ended_call : Memory → Cpu S → Option Ending → Memory × HandlerEnd S
  ended_call mem cpu none = (mem, irq_panics)
  ended_call mem cpu (some e) = (
    e.mem,
    switches (put_current (record cpu { sched = record cpu.sched { counts = e.counts } }) e.proc),
  )

  -- `int_sys_call` behind `process_syscall`: a process that is dead gives way to another.
  unfoldable pub end_sys_call : (fuel : ℕ) → Memory → Cpu S → Memory × HandlerEnd S
  end_sys_call fuel mem cpu =
      let p = current_proc cpu in
      if p.state == dead
      then (mem, with_picked cpu switches (sched_pick_next fuel cpu.sched))
      else ended_call mem cpu (leave_call mem cpu.sched.counts p)
