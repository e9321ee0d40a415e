-- ===== src/Sys/Sysd/Tests.antt =====
-- sysd.c with one process and no driver.
use pi_os.Common.{inl, inr, set, ℕ, ◌≡◌, refl, arith, false, none, [], ◌∷◌, replicate}
use pi_os.Fs.{ProcFile}
use pi_os.Proc.{Proc, syscall}
use pi_os.Sys.Sysd.{Drivers, Kernel, ends}
use pi_os.Sys.Sysd.Dispatch.{Loader, process_syscall, sysno_of}
use pi_os.Sys.Sysd.Isolation.{IsolatedCall}
use pi_os.Sys.Sysd.Every.{ActsOnOthers, process_syscall-Isolated}
use pi_os.Sys.Sysd.Errors.{process_syscall_bad_fd}

abbrev no_drivers : Drivers ℕ
no_drivers = record {
  kernel_buffer_only = λ vnode. false;
  find_inode = λ vnode path s. (none, s);
  async_request = λ vnode. none;
  fio_ctl = λ vnode. none;
}

abbrev no_loader : Loader ℕ
no_loader exe k = (none, k)

abbrev closed_file : ProcFile
closed_file = record { inode = none; offset = 0; fcntl_flags = 0; driver_data = 0 }

-- A process in the call with the number and first argument given
abbrev caller : (number arg : ℕ) → Proc
caller number arg = record {
  pid = 1;
  state = syscall;
  kind = 1;
  proc_state = record {
    regs = replicate 8 0;
    pc = 0;
    arith_flags = 0;
    mem_pages = [];
    prog_pages = [];
  };
  syscall_state = record {
    regs = number ∷ arg ∷ replicate 6 0;
    pc = 0;
    arith_flags = 0;
    mem_pages = replicate 16 7;
    prog_pages = replicate 16 7;
  };
  name = [];
  kernel_stack_page = 5;
  open_files = closed_file ∷ [];
  parent = 0;
  sema_blocked = none;
  signal_queue = [];
  signals_hold = 0;
  sighandler = 0;
  signal_sema = 10;
  load_brk = 0;
  alarm_ticks = 0;
}

abbrev kernel : Proc → Kernel ℕ
kernel p = record {
  procs = p ∷ [];
  current = 0;
  counts = λ s. 0;
  mem = λ page a. 0;
  first_free_page = 0x20;
  sys_ticks = 0x5_0003;
  mounts = [];
  last_req_id = 0;
  mqs = record { entries = []; mq_id = 0; mq_msg_id = 0 };
  heap = λ a. [];
  driver_state = 0;
}

process_syscall-Isolated_example :
    IsolatedCall
      (kernel (caller 9 3))
      (caller 9 3)
      (process_syscall no_drivers no_loader 0 [] (kernel (caller 9 3)))
unfolding sysno_of
process_syscall-Isolated_example =
    process_syscall-Isolated no_drivers no_loader 0 [] (kernel (caller 9 3)) (caller 9 3) refl
      pgmap-ne
  where
    pgmap-ne : ¬ ActsOnOthers (sysno_of 9)
    pgmap-ne = ground arith

process_syscall_bad_fd_example :
    process_syscall no_drivers no_loader 0 [] (kernel (caller 4 20))
    ≡ ends (record (kernel (caller 4 20)) {
      procs = set (kernel (caller 4 20)).procs 0 (record (caller 4 20) {
        syscall_state = record (caller 4 20).syscall_state {
          regs = set (caller 4 20).syscall_state.regs 0 0xFFF9;
        };
      });
    })
process_syscall_bad_fd_example =
    process_syscall_bad_fd no_drivers no_loader 0 [] (kernel (caller 4 20)) (caller 4 20) refl
      (inr (inl refl)) (omega arith)
