-- ===== src/Proc/Threads.antt =====
-- kernel/proc/sched.c: the creation of threads. What `kmalloc` returns is a parameter: a `struct proc`
-- with any fields, of which the functions write some.
pub mod Create
mod Tests
use pi_os.Common.{
  ℕ, zero, suc, ◌+◌, Option, none, some, List, [], ◌∷◌, ◌++◌, ◌==◌, if◌then◌else◌, set, replicate,
}
use pi_os.Common.Word.{add16}
use pi_os.Libc.Strings.{CString, strcpy}
use pi_os.Libk.Semaphore.{Counts, update, semaphore_init}
use pi_os.Fs.{ProcFile}
use pi_os.Proc.{ProcState, Proc, unloaded, runnable, type_user, type_kernel}

-- `proc_list`, `pid_now`, `first_free_page` and the counts of the semaphores
pub record Pool : Type 0 where
  pub procs : List Proc
  pub pid_now : ℕ
  pub first_free_page : ℕ
  pub counts : Counts

-- `n, n + 1, …`
abbrev pub count_from : ℕ → ℕ → List ℕ
count_from zero n = []
count_from (suc k) n = n ∷ count_from k (n + 1)

abbrev pub close_files : List ProcFile → List ProcFile
close_files [] = []
close_files (file ∷ files) = record file { inode = none } ∷ close_files files

-- The stack pointer and the frame pointer of a kernel thread.
abbrev pub kernel_regs : List ℕ
kernel_regs = set (set (replicate 8 0) 7 0xFFFE) 5 0xFFFE

unfoldable pub make_kernel_thread : (fresh : Proc) → Pool → CString → (entry : ℕ) → ℕ × Pool
make_kernel_thread fresh s name entry =
    let pid = add16 s.pid_now 1 in
    let p : Proc = record fresh {
      pid = pid;
      kind = type_kernel;
      proc_state = record {
        regs = kernel_regs;
        pc = entry;
        arith_flags = 0;
        mem_pages = set (set (count_from 16 0x200) 0 0) 15 s.first_free_page;
        prog_pages = count_from 16 0;
      };
      sema_blocked = none;
      open_files = close_files fresh.open_files;
      state = runnable;
      signal_queue = [];
      sighandler = 0;
      name = strcpy fresh.name name;
      parent = 0;
    } in
    (
      pid,
      record {
        procs = s.procs ++ (p ∷ []);
        pid_now = pid;
        first_free_page = add16 s.first_free_page 1;
        counts = update s.counts fresh.signal_sema semaphore_init;
      },
    )

unfoldable pub sched_init_user_thread : (fresh : Proc) → Pool → Proc × Pool
sched_init_user_thread fresh s =
    let pid = add16 s.pid_now 1 in
    let stack_page = s.first_free_page in
    let kernel_page = add16 stack_page 1 in
    let p : Proc = record fresh {
      pid = pid;
      kind = type_user;
      proc_state = record {
        regs = replicate 8 0;
        pc = 0;
        arith_flags = 0;
        mem_pages = set (replicate 16 0xFF) 15 stack_page;
        prog_pages = replicate 16 0xFF;
      };
      kernel_stack_page = kernel_page;
      open_files = close_files fresh.open_files;
      sema_blocked = none;
      state = unloaded;
      name = set fresh.name 0 0;
      signal_queue = [];
      signals_hold = 0;
      sighandler = 0;
      parent = 0;
    } in
    (
      p,
      record {
        procs = s.procs ++ (p ∷ []);
        pid_now = pid;
        first_free_page = add16 kernel_page 1;
        counts = update s.counts fresh.signal_sema semaphore_init;
      },
    )
