-- ===== src/Sys/Sysd/Dispatch.antt =====
-- kernel/sys/sysd.c: the system call of the number in `regs[0]`.
use pi_os.Common.{ℕ, ◌≡◌, ap, Option, none, some, List, ◌==◌, if◌then◌else◌, get_elem?}
use pi_os.Common.Word.{neg16}
use pi_os.Fs.{ProcFile, einval}
use pi_os.Proc.{Proc}
use pi_os.Sys.Sysd.{Drivers, Kernel, Call, ends, reads_null, reg, returns_word}
use pi_os.Sys.Sysd.Files.{with_file, sys_open, sys_close, sys_read, sys_write, sys_fcntl}
use pi_os.Sys.Sysd.Processes.{
  sys_procinfo, sys_pgmap, sys_sigaction, sys_sigsend, sys_sighdlrret, sys_sigwait, sys_clockticks,
  sys_alarmset, sys_exit, loaded,
}
use pi_os.Sys.Sysd.Messages.{sys_mqcreat, sys_mqsend, sys_mqrecv}

pub data Sysno : Type 0 where
  sys_dump_no : Sysno
  sys_print_no : Sysno
  sys_open_no : Sysno
  sys_close_no : Sysno
  sys_read_no : Sysno
  sys_write_no : Sysno
  sys_fcntl_no : Sysno
  sys_exit_no : Sysno
  sys_procinfo_no : Sysno
  sys_pgmap_no : Sysno
  sys_sigsend_no : Sysno
  sys_sigwait_no : Sysno
  sys_sigaction_no : Sysno
  sys_sighdlrret_no : Sysno
  sys_clockticks_no : Sysno
  sys_alarmset_no : Sysno
  sys_mqcreat_no : Sysno
  sys_mqsend_no : Sysno
  sys_mqrecv_no : Sysno
  sys_exec_no : Sysno
  illegal : Sysno

-- The numbers of syscodes.h; `SYS_PGUNMAP`, 0xa, has no case.
abbrev low_sysno : ℕ → Sysno
low_sysno n =
    if n == 0x0
    then sys_dump_no
    else if n == 0x1
    then sys_print_no
    else if n == 0x2
    then sys_open_no
    else if n == 0x3
    then sys_close_no
    else if n == 0x4
    then sys_read_no
    else if n == 0x5
    then sys_write_no
    else if n == 0x6
    then sys_fcntl_no
    else if n == 0x7
    then sys_exit_no
    else if n == 0x8
    then sys_procinfo_no
    else if n == 0x9
    then sys_pgmap_no
    else illegal

unfoldable pub sysno_of : ℕ → Sysno
sysno_of n =
    if n == 0xb
    then sys_sigsend_no
    else if n == 0xc
    then sys_sigwait_no
    else if n == 0xd
    then sys_sigaction_no
    else if n == 0xe
    then sys_sighdlrret_no
    else if n == 0xf
    then sys_clockticks_no
    else if n == 0x10
    then sys_alarmset_no
    else if n == 0x11
    then sys_mqcreat_no
    else if n == 0x12
    then sys_mqsend_no
    else if n == 0x13
    then sys_mqrecv_no
    else if n == 0x14
    then sys_exec_no
    else low_sysno n

-- `elf_load` on the kernel: the place of the child and the child, if it is loaded.
abbrev pub Loader : Type 0 → Type 0
Loader S = ProcFile → Kernel S → Option (ℕ × Proc) × Kernel S

-- What `kmalloc` returns in a call: the address of a block, and what it holds.
module _ {S : Type 0} (drivers : Drivers S) (elf_load : Loader S) (block : ℕ) (junk : List ℕ) where
  abbrev pub exec_file : Kernel S → Proc → ProcFile → Call S
  exec_file k p exe = let (child, k') = elf_load exe k in loaded p k' child

  unfoldable pub sys_exec : Kernel S → Proc → Call S
  sys_exec k p = with_file drivers k p (exec_file k p)

  unfoldable pub dispatch : Sysno → Kernel S → Proc → Call S
  dispatch sys_dump_no k p = ends k
  -- Of this one, the text that goes to the log is left out.
  dispatch sys_print_no k p = ends k
  dispatch sys_open_no k p = sys_open drivers k p
  dispatch sys_close_no k p = sys_close drivers k p
  dispatch sys_read_no k p = sys_read drivers junk k p
  dispatch sys_write_no k p = sys_write drivers k p
  dispatch sys_fcntl_no k p = sys_fcntl drivers k p
  dispatch sys_exit_no k p = sys_exit k p
  dispatch sys_procinfo_no k p = sys_procinfo k p
  dispatch sys_pgmap_no k p = sys_pgmap k p
  dispatch sys_sigsend_no k p = sys_sigsend k p
  dispatch sys_sigwait_no k p = sys_sigwait k p
  dispatch sys_sigaction_no k p = sys_sigaction k p
  dispatch sys_sighdlrret_no k p = sys_sighdlrret k p
  dispatch sys_clockticks_no k p = sys_clockticks k p
  dispatch sys_alarmset_no k p = sys_alarmset k p
  dispatch sys_mqcreat_no k p = sys_mqcreat k p
  dispatch sys_mqsend_no k p = sys_mqsend block k p
  dispatch sys_mqrecv_no k p = sys_mqrecv k p
  dispatch sys_exec_no k p = sys_exec k p
  dispatch illegal k p = returns_word k p (neg16 einval)

  -- There is a current process whenever a call is made.
  unfoldable pub run_current : Kernel S → Option Proc → Call S
  run_current k none = reads_null
  run_current k (some p) = dispatch (sysno_of (reg p 0)) k p

  unfoldable pub process_syscall : Kernel S → Call S
  process_syscall k = run_current k (get_elem? k.procs k.current)

  -- With a current process, the call of the number in its `regs[0]` is made.
  pub process_syscall-dispatch :
      (k : Kernel S) (p : Proc)
      → get_elem? k.procs k.current ≡ some p
      → process_syscall k ≡ dispatch (sysno_of (reg p 0)) k p
  unfolding process_syscall run_current
  process_syscall-dispatch k p here = ap (run_current k) here
