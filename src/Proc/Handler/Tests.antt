-- ===== src/Proc/Handler/Tests.antt =====
-- A process with a handler, whose stack pointer is in its stack page.
use pi_os.Common.{◌≡◌, refl, arith, none, some, [], ◌∷◌, replicate}
use pi_os.Proc.{Signal, ProcState, Proc, syscall}
use pi_os.Proc.Virtual.{Memory}
use pi_os.Proc.Handler.{signal_handler_enter, handler_state}
use pi_os.Proc.Handler.Layout.{IsWhole}
use pi_os.Proc.Handler.Return.{HasRoom, enter_result, frame_memory}

abbrev user_state : ProcState
user_state = record {
  regs = 1 ∷ 2 ∷ 3 ∷ 4 ∷ 5 ∷ 6 ∷ 7 ∷ 0xFF00 ∷ [];
  pc = 0x1234;
  arith_flags = 1;
  mem_pages = replicate 16 0x30;
  prog_pages = replicate 16 0x31;
}

abbrev proc : Proc
proc = record {
  pid = 2;
  state = syscall;
  kind = 1;
  proc_state = user_state;
  syscall_state = user_state;
  name = [];
  kernel_stack_page = 5;
  open_files = [];
  parent = 1;
  sema_blocked = none;
  signal_queue = [];
  signals_hold = 0;
  sighandler = 0x400;
  signal_sema = 10;
  load_brk = 0;
  alarm_ticks = 0;
}

abbrev alarm : Signal
alarm = record { kind = 2; number = 9 }

abbrev zeros : Memory
zeros page addr = 0

user_state-IsWhole : IsWhole user_state
user_state-IsWhole = record {
  eight = refl;
  mem_sixteen = refl;
  prog_sixteen = refl;
  words = omega arith;
}

proc-HasRoom : HasRoom proc
proc-HasRoom = record { low = omega arith; high = omega arith }

entered :
    signal_handler_enter zeros proc alarm
    ≡ some
        (frame_memory zeros proc alarm user_state-IsWhole proc-HasRoom, handler_state proc 0xFEA4)
entered = enter_result zeros proc alarm user_state-IsWhole proc-HasRoom (omega arith)
