-- ===== src/Sys/Sysd.antt =====
-- kernel/sys/sysd.c: the system calls. The current process is a place in the list of processes, and
-- `state` is its `syscall_state`. The drivers of the file systems are a parameter, `S` their state.
pub mod Files
pub mod Processes
pub mod Messages
pub mod Dispatch
pub mod Isolation
pub mod Calls
pub mod Every
pub mod Errors
mod Tests
use pi_os.Common.{ℕ, ◌+◌, Bool, Option, none, some, List, get_or, set}
use pi_os.Libc.Strings.{CString}
use pi_os.Libk.Semaphore.{Counts}
use pi_os.Fs.{Inode, ProcFile}
use pi_os.Fs.Mounts.{Vnode}
use pi_os.Fs.Requests.{Submit, Request}
use pi_os.Proc.{ProcState, Proc}
use pi_os.Proc.Virtual.{Memory}
use pi_os.Sys.Mq.{Mqs, Thread}

-- What `vfs_reg` holds for a vnode, which is its place in the mount list.
pub record Drivers (S : Type 0) : Type 0 where
  -- `flags & VFS_REG_FLAG_KERNEL_BUFFER_ONLY`
  pub kernel_buffer_only : ℕ → Bool
  pub find_inode : Vnode → CString → S → Option Inode × S
  pub async_request : ℕ → Option (Submit S)
  pub fio_ctl : ℕ → Option (Inode → (kind number : ℕ) → Option (ProcFile × ℕ) → ℕ)

-- The variables that the system calls read and write.
pub record Kernel (S : Type 0) : Type 0 where
  pub procs : List Proc
  pub current : ℕ
  pub counts : Counts
  pub mem : Memory
  pub first_free_page : ℕ
  pub sys_ticks : ℕ
  pub mounts : List Vnode
  pub last_req_id : ℕ
  pub mqs : Mqs
  -- the bytes of the messages, by the address of their block
  pub heap : ℕ → List ℕ
  pub driver_state : S

-- How a call goes on: it ends, and returns to the process; it sleeps, in a driver, on a request or on
-- a semaphore; it goes on in mq.c; or it reads through `NULL`, or panics.
pub data Call (S : Type 0) : Type 0 where
  ends : Kernel S → Call S
  sleeps_on_request : Kernel S → Request → Call S
  sleeps_in_call : Kernel S → Call S
  enters_mq : Kernel S → Thread → Call S
  reads_null : Call S
  call_panics : Call S

abbrev pub reg : Proc → ℕ → ℕ
reg p i = get_or p.syscall_state.regs i 0

abbrev pub set_reg : Proc → ℕ → ℕ → Proc
set_reg p i v = record p {
  syscall_state = record p.syscall_state { regs = set p.syscall_state.regs i v };
}

module _ {S : Type 0} where
  -- A write to the current process.
  abbrev pub put : Kernel S → Proc → Kernel S
  put k p = record k { procs = set k.procs k.current p }

  -- `state->regs[0] = v; break;`
  abbrev pub returns_word : Kernel S → Proc → ℕ → Call S
  returns_word k p v = ends (put k (set_reg p 0 v))
