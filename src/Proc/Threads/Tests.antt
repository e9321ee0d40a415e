-- ===== src/Proc/Threads/Tests.antt =====
-- sched.c creating a kernel and a user thread.
use pi_os.Common.{◌≡◌, refl, arith, some, [], replicate}
use pi_os.Proc.{ProcState, Proc}
use pi_os.Proc.Threads.{Pool, make_kernel_thread}
use pi_os.Proc.Threads.Create.{IsValid}

abbrev blank : ProcState
blank = record { regs = []; pc = 0; arith_flags = 0; mem_pages = []; prog_pages = [] }

abbrev fresh : Proc
fresh = record {
  pid = 9;
  state = 1;
  kind = 9;
  proc_state = blank;
  syscall_state = blank;
  name = replicate 16 0xAA;
  kernel_stack_page = 9;
  open_files = [];
  parent = 9;
  sema_blocked = some 9;
  signal_queue = [];
  signals_hold = 9;
  sighandler = 9;
  signal_sema = 100;
  load_brk = 9;
  alarm_ticks = 9;
}

abbrev no_threads : Pool
no_threads = record { procs = []; pid_now = 0; first_free_page = 0x211; counts = λ _. 0 }

no_threads-IsValid : IsValid no_threads
no_threads-IsValid = record { pids = omega arith; pages = omega arith }

first_pid : (make_kernel_thread fresh no_threads [] 0x400).0 ≡ 1
unfolding make_kernel_thread
first_pid = refl
