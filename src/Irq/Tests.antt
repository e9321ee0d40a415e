-- ===== src/Irq/Tests.antt =====
-- interrupt.c on a system of two processes.
use pi_os.Common.{
  Bool, ℕ, ◌+◌, ◌≡◌, refl, arith, true, false, some, none, List, [], ◌∷◌, replicate, set,
}
use pi_os.Libk.Semaphore.{Counts, update}
use pi_os.Proc.{Signal, ProcState, Proc, runnable}
use pi_os.Proc.Sched.{Sched}
use pi_os.Proc.Virtual.{Memory}
use pi_os.Proc.Handler.{handler_state, signal_handler_return}
use pi_os.Proc.Handler.Layout.{IsWhole}
use pi_os.Proc.Handler.Return.{HasRoom, enter_result, frame_memory}
use pi_os.Irq.{SendKey, Frame, interrupt}
use pi_os.Driver.Keyboard.{Keyboard}
use pi_os.Irq.Saved.{Saves, interrupted, interrupt-Saves}
use pi_os.Irq.Ends.{running}
use pi_os.Irq.Syscall.{leave_call}
use pi_os.Irq.Delivery.{returned, leave_call-signal_handler_return}

abbrev user_state : ProcState
user_state = record {
  regs = set (replicate 8 3) 7 0xFF00;
  pc = 0x200;
  arith_flags = 1;
  mem_pages = replicate 16 0x40;
  prog_pages = replicate 16 0x10;
}

abbrev caller : Proc
caller = record {
  pid = 1;
  state = 1;
  kind = 1;
  proc_state = user_state;
  syscall_state = user_state;
  name = [];
  kernel_stack_page = 0x20;
  open_files = [];
  parent = 0;
  sema_blocked = none;
  signal_queue = record { kind = 2; number = 9 } ∷ [];
  signals_hold = 0;
  sighandler = 0x400;
  signal_sema = 10;
  load_brk = 0;
  alarm_ticks = 0;
}

abbrev processes : List Proc
processes = caller ∷ record caller { pid = 2; signal_sema = 11 } ∷ []

abbrev no_keys : SendKey ℕ
no_keys key counts sent = some (counts, sent + 1)

abbrev zero_behind : Bool → ℕ → ℕ
zero_behind shift scancode = 0

abbrev keyboard : Keyboard
keyboard = record { prev_scancode = 0; shift = false; ctrl = false; extended_scancode = false }

abbrev one_count : Counts
one_count s = 1

abbrev sched : Sched
sched = record {
  procs = processes;
  last_element = some 0;
  current = some 0;
  counts = one_count;
  sys_ticks = 0;
}

abbrev frame : ℕ → Frame
frame irq_flags = record {
  regs = replicate 8 7;
  pc = 0x300;
  arith_flags = 0;
  irq_flags = irq_flags;
}

interrupt-Saves_example : Saves (interrupted (frame 0) user_state ∷ user_state ∷ []) (
    interrupt zero_behind no_keys 4
      (record { scancode = some 0x1C; timer = true })
      (running sched caller keyboard 0 0)
      (frame 0))
interrupt-Saves_example =
    interrupt-Saves zero_behind no_keys 4 (record { scancode = some 0x1C; timer = true })
      (running sched caller keyboard 0 0) (frame 0) 0 caller refl refl refl

abbrev zeros : Memory
zeros page addr = 0

abbrev alarm : Signal
alarm = record { kind = 2; number = 9 }

user_state-IsWhole : IsWhole user_state
user_state-IsWhole = record {
  eight = refl;
  mem_sixteen = refl;
  prog_sixteen = refl;
  words = omega arith;
}

caller-HasRoom : HasRoom (returned caller)
caller-HasRoom = record { low = omega arith; high = omega arith }

abbrev with_frame : Memory
with_frame = frame_memory zeros (returned caller) alarm user_state-IsWhole caller-HasRoom

-- The process as it makes the system call at the end of the handler.
abbrev handled : Proc
handled = record caller {
  syscall_state = record user_state { regs = set user_state.regs 5 0xFEA4 };
  signals_hold = 1;
}

leave_call-signal_handler_return_example :
    (leave_call zeros one_count caller
      ≡ some (record {
        proc = record (handler_state (returned caller) 0xFEA4) {
          signal_queue = [];
          state = runnable;
        };
        mem = with_frame;
        counts = update one_count 10 0;
      }))
    × (signal_handler_return with_frame handled
        ≡ some (record handled { syscall_state = user_state; signals_hold = 0 }))
leave_call-signal_handler_return_example =
    leave_call-signal_handler_return zeros with_frame with_frame one_count caller
      (handler_state (returned caller) 0xFEA4) handled alarm [] user_state-IsWhole caller-HasRoom
      refl refl (omega arith) (omega arith) (omega arith)
      (enter_result zeros (returned caller) alarm user_state-IsWhole caller-HasRoom (omega arith))
      refl refl refl
