-- ===== src/Sys/Sysd/Every.antt =====
-- kernel/sys/sysd.c: every system call but those that send a signal, end a process or start one
-- keeps to its own process.
use pi_os.Common.{ℕ, ◌≡◌, ◌⊎◌, subst, refl, sym, inl, inr, some, List, get_elem?}
use pi_os.Proc.{Proc}
use pi_os.Sys.Sysd.{Drivers, Kernel, reg}
use pi_os.Sys.Sysd.Processes.{sys_sigaction, sys_clockticks, sys_alarmset}
use pi_os.Sys.Sysd.Dispatch.{
  process_syscall-dispatch, illegal, sys_dump_no, sys_print_no, sys_open_no, sys_close_no,
  sys_read_no, sys_write_no, sys_fcntl_no, sys_procinfo_no, sys_pgmap_no, sys_sigwait_no,
  sys_sigaction_no, sys_sighdlrret_no, sys_clockticks_no, sys_alarmset_no, sys_mqcreat_no,
  sys_mqsend_no, sys_mqrecv_no, Sysno, sys_exit_no, sys_sigsend_no, sys_exec_no, sysno_of, Loader,
  dispatch, process_syscall,
}
use pi_os.Sys.Sysd.Isolation.{IsolatedCall, unchanged, put-Isolated}
use pi_os.Sys.Sysd.Calls.{
  sys_open-Isolated, sys_close-Isolated, sys_read-Isolated, sys_write-Isolated, sys_fcntl-Isolated,
  sys_procinfo-Isolated, sys_pgmap-Isolated, sys_sighdlrret-Isolated, sys_sigwait-Isolated,
  sys_mqsend-Isolated, sys_mqrecv-Isolated, sys_mqcreat-Isolated,
}

-- The numbers of the calls that act on another process.
abbrev pub ActsOnOthers : Sysno → Type 0
ActsOnOthers n = ((n ≡ sys_exit_no) ⊎ (n ≡ sys_sigsend_no)) ⊎ (n ≡ sys_exec_no)

dispatch-Isolated :
    {S : Type 0} (drivers : Drivers S) (elf_load : Loader S) (block : ℕ) (junk : List ℕ)
    (k : Kernel S) (p : Proc) (n : Sysno)
    → ¬ ActsOnOthers n
    → IsolatedCall k p (dispatch drivers elf_load block junk n k p)
unfolding dispatch sys_sigaction sys_clockticks sys_alarmset
dispatch-Isolated drivers elf_load block junk k p sys_dump_no h = unchanged k p
dispatch-Isolated drivers elf_load block junk k p sys_print_no h = unchanged k p
dispatch-Isolated drivers elf_load block junk k p sys_open_no h = sys_open-Isolated drivers k p
dispatch-Isolated drivers elf_load block junk k p sys_close_no h = sys_close-Isolated drivers k p
dispatch-Isolated drivers elf_load block junk k p sys_read_no h = sys_read-Isolated drivers k p junk
dispatch-Isolated drivers elf_load block junk k p sys_write_no h = sys_write-Isolated drivers k p
dispatch-Isolated drivers elf_load block junk k p sys_fcntl_no h = sys_fcntl-Isolated drivers k p
dispatch-Isolated drivers elf_load block junk k p sys_exit_no h = absurd (h (inl (inl refl)))
dispatch-Isolated drivers elf_load block junk k p sys_procinfo_no h =
    sys_procinfo-Isolated drivers k p
dispatch-Isolated drivers elf_load block junk k p sys_pgmap_no h = sys_pgmap-Isolated drivers k p
dispatch-Isolated drivers elf_load block junk k p sys_sigsend_no h = absurd (h (inl (inr refl)))
dispatch-Isolated drivers elf_load block junk k p sys_sigwait_no h =
    sys_sigwait-Isolated drivers k p
dispatch-Isolated drivers elf_load block junk k p sys_sigaction_no h =
    put-Isolated k p k _ (unchanged k p)
dispatch-Isolated drivers elf_load block junk k p sys_sighdlrret_no h =
    sys_sighdlrret-Isolated drivers k p
dispatch-Isolated drivers elf_load block junk k p sys_clockticks_no h =
    put-Isolated k p k _ (unchanged k p)
dispatch-Isolated drivers elf_load block junk k p sys_alarmset_no h =
    put-Isolated k p k _ (unchanged k p)
dispatch-Isolated drivers elf_load block junk k p sys_mqcreat_no h =
    sys_mqcreat-Isolated drivers k p
dispatch-Isolated drivers elf_load block junk k p sys_mqsend_no h =
    sys_mqsend-Isolated drivers k p block
dispatch-Isolated drivers elf_load block junk k p sys_mqrecv_no h = sys_mqrecv-Isolated drivers k p
dispatch-Isolated drivers elf_load block junk k p sys_exec_no h = absurd (h (inr refl))
dispatch-Isolated drivers elf_load block junk k p illegal h = put-Isolated k p k _ (unchanged k p)

-- A system call of any number but those of exit, sigsend and exec leaves the other processes as they were, and
-- every page of memory that the calling process does not map, wherever it ends or waits.
pub process_syscall-Isolated :
    {S : Type 0} (drivers : Drivers S) (elf_load : Loader S) (block : ℕ) (junk : List ℕ)
    (k : Kernel S) (p : Proc)
    → get_elem? k.procs k.current ≡ some p
    → ¬ ActsOnOthers (sysno_of (reg p 0))
    → IsolatedCall k p (process_syscall drivers elf_load block junk k)
process_syscall-Isolated drivers elf_load block junk k p here h =
    subst (IsolatedCall k p) (sym (process_syscall-dispatch drivers elf_load block junk k p here))
      (dispatch-Isolated drivers elf_load block junk k p (sysno_of (reg p 0)) h)
