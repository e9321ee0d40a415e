-- ===== src/Proc.antt =====
-- Processes, kernel/proc: `struct proc` of proc.h.
-- A semaphore is its address; the counts are in a store, so that `sema_blocked` may name the
-- `signal_sema` of a process.
pub mod Signals
pub mod Blocking
pub mod Threads
pub mod Virtual
pub mod Handler
pub mod Elf
pub mod Sched
use pi_os.Common.{ℕ, Option, List}
use pi_os.Libc.Strings.{CString}
use pi_os.Fs.{ProcFile}

abbrev pub unloaded : ℕ
unloaded = 0

abbrev pub runnable : ℕ
runnable = 1

abbrev pub blocked : ℕ
blocked = 2

abbrev pub syscall : ℕ
syscall = 3

abbrev pub syscall_blocked : ℕ
syscall_blocked = 4

abbrev pub dead : ℕ
dead = 5

-- `struct signal`
pub record Signal : Type 0 where
  pub kind : ℕ
  pub number : ℕ

-- `struct proc_state`
pub record ProcState : Type 0 where
  pub regs : List ℕ
  pub pc : ℕ
  pub arith_flags : ℕ
  pub mem_pages : List ℕ
  pub prog_pages : List ℕ

-- `struct proc`, with the address of its `signal_sema`
pub record Proc : Type 0 where
  pub pid : ℕ
  pub state : ℕ
  pub kind : ℕ
  pub proc_state : ProcState
  pub syscall_state : ProcState
  pub name : CString
  pub kernel_stack_page : ℕ
  pub open_files : List ProcFile
  pub parent : ℕ
  pub sema_blocked : Option ℕ
  pub signal_queue : List Signal
  pub signals_hold : ℕ
  pub sighandler : ℕ
  pub signal_sema : ℕ
  pub load_brk : ℕ
  pub alarm_ticks : ℕ

abbrev pub type_init : ℕ
type_init = 0

abbrev pub type_user : ℕ
type_user = 1

abbrev pub type_kernel : ℕ
type_kernel = 2
