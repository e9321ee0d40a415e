-- ===== src/Sys/Sysd/Processes.antt =====
-- kernel/sys/sysd.c: the system calls on processes, their memory, signals and time.
use pi_os.Common.{
  ℕ, ◌+◌, ◌*◌, ◌%◌, Bool, ◌&&◌, ◌||◌, not, Option, none, some, List, [], ◌∷◌, leb, ◌==◌,
  if◌then◌else◌, get_or, set,
}
use pi_os.Common.Word.{add16, neg16, is_neg16}
use pi_os.Libk.Semaphore.{semaphore_down, Down, panics, sleeps, takes, update}
use pi_os.Fs.{einval, enotfound, ebadfd}
use pi_os.Proc.{Signal, Proc, runnable, dead}
use pi_os.Proc.Signals.{signal_send, proc_by_pid, signal_send_sigchld}
use pi_os.Proc.Blocking.{block_current}
use pi_os.Proc.Handler.{bytes_of, signal_words, signal_handler_return}
use pi_os.Proc.Virtual.{memcpy_to_userspace}
use pi_os.Sys.Sysd.{
  Kernel, Call, ends, sleeps_in_call, call_panics, reg, set_reg, put, returns_word,
}

-- `1u << i` for each page from `i` on that is mapped
abbrev pub mapped_bits : (bit : ℕ) → (List Bool) → ℕ
mapped_bits bit [] = 0
mapped_bits bit (mapped ∷ rest) = (if mapped then bit else 0) + mapped_bits (2 * bit) rest

abbrev pub mem_mapped : List ℕ → List Bool
mem_mapped [] = []
mem_mapped (page ∷ pages) = (not (page == 0) && not (page == 0xFF)) ∷ mem_mapped pages

abbrev pub prog_mapped : List ℕ → List Bool
prog_mapped [] = []
prog_mapped (page ∷ pages) = not (page == 0) ∷ prog_mapped pages

-- `struct sys_proc_info`, its words in order
unfoldable pub proc_info : Proc → List ℕ
proc_info proc =
    proc.pid
    ∷ proc.kind
    ∷ proc.state
    ∷ proc.load_brk
    ∷ mapped_bits 1 (mem_mapped proc.syscall_state.mem_pages)
    ∷ mapped_bits 1 (prog_mapped proc.syscall_state.prog_pages)
    ∷ (if proc.state == dead then get_or proc.proc_state.regs 0 0 else 0)
    ∷ []

-- `current_proc->syscall_state.mem_pages[i] = page`
abbrev pub map_page : Proc → (i page : ℕ) → Proc
map_page p i page = record p {
  syscall_state = record p.syscall_state { mem_pages = set p.syscall_state.mem_pages i page };
}

module _ {S : Type 0} where
  abbrev pub tell_info : Kernel S → Proc → Option (ℕ × Proc) → Call S
  tell_info k p none = returns_word k p (neg16 enotfound)
  tell_info k p (some (i, proc)) =
      returns_word
        (record k { mem = memcpy_to_userspace k.mem p (reg p 2) (bytes_of (proc_info proc)) }) p 0

  unfoldable pub sys_procinfo : Kernel S → Proc → Call S
  sys_procinfo k p =
      tell_info k p (if reg p 1 == 0 then some (k.current, p) else proc_by_pid k.procs (reg p 1))

  unfoldable pub sys_pgmap : Kernel S → Proc → Call S
  sys_pgmap k p =
      let page = get_or p.syscall_state.mem_pages (reg p 1) 0 in
      if is_neg16 (reg p 1) || leb 16 (reg p 1)
      then returns_word k p (neg16 einval)
      else if not (page == 0xFF) && not (page == 0)
      then returns_word k p (neg16 enotfound)
      else returns_word (record k { first_free_page = add16 k.first_free_page 1 })
          (map_page p (reg p 1) k.first_free_page) 0

  unfoldable pub sys_sigaction : Kernel S → Proc → Call S
  sys_sigaction k p = returns_word k (record p { sighandler = reg p 1 }) p.sighandler

  abbrev pub send_to : Kernel S → Signal → Option (ℕ × Proc) → Proc → Call S
  send_to k signal none p = returns_word k p (neg16 einval)
  send_to k signal (some (i, target)) p =
      let (target', counts) = signal_send k.counts target signal in
      ends (record k { procs = set k.procs i target'; counts = counts })

  unfoldable pub sys_sigsend : Kernel S → Proc → Call S
  sys_sigsend k p =
      send_to k (record { kind = reg p 2; number = reg p 3 })
        (if is_neg16 (reg p 1) then some (k.current, p) else proc_by_pid k.procs (reg p 1)) p

  abbrev pub handler_returned : Kernel S → Option Proc → Call S
  handler_returned k none = call_panics
  handler_returned k (some p) = ends (put k p)

  unfoldable pub sys_sighdlrret : Kernel S → Proc → Call S
  sys_sighdlrret k p = handler_returned k (signal_handler_return k.mem p)

  -- What follows `semaphore_down(&current_proc->signal_sema)`.
  abbrev pub take_signal : Kernel S → Proc → List Signal → Call S
  take_signal k p [] = call_panics
  take_signal k p (signal ∷ rest) =
      returns_word
        (record k { mem = memcpy_to_userspace k.mem p (reg p 1) (bytes_of (signal_words signal)) })
        (record p { signal_queue = rest }) 0

  abbrev pub sema_down : Kernel S → Proc → Down → Call S
  sema_down k p panics = call_panics
  sema_down k p sleeps = sleeps_in_call (put k (block_current p p.signal_sema))
  sema_down k p (takes count) =
      take_signal (record k { counts = update k.counts p.signal_sema count }) p p.signal_queue

  unfoldable pub sys_sigwait : Kernel S → Proc → Call S
  sys_sigwait k p =
      if not (p.sighandler == 0) && (p.signals_hold == 0)
      then returns_word k p (neg16 einval)
      else sema_down k p (semaphore_down (k.counts p.signal_sema))

  -- `sys_ticks` has 32 bits, and so has the shifted value before it is cut to a word.
  unfoldable pub sys_clockticks : Kernel S → Proc → Call S
  sys_clockticks k p = ends (
      put k (
        set_reg (set_reg p 0 (k.sys_ticks % 0x1_0000)) 1
          (((k.sys_ticks * 0x1_0000) % 0x1_0000_0000) % 0x1_0000)))

  unfoldable pub sys_alarmset : Kernel S → Proc → Call S
  sys_alarmset k p = ends (put k (record p { alarm_ticks = reg p 2 * 0x1_0000 + reg p 1 }))

  unfoldable pub sys_exit : Kernel S → Proc → Call S
  sys_exit k p =
      let p' : Proc = record (set_reg p 0 (reg p 1)) { state = dead } in
      let (procs, counts) = signal_send_sigchld k.counts (set k.procs k.current p') p' p' in
      ends (record k { procs = procs; counts = counts })

  -- What follows `elf_load`: the place of the child, or none.
  abbrev pub loaded : Proc → Kernel S → Option (ℕ × Proc) → Call S
  loaded p k none = returns_word k p (neg16 ebadfd)
  loaded p k (some (i, child)) =
      let child' : Proc = record child { parent = p.pid; state = runnable } in
      returns_word (record k { procs = set k.procs i child' }) p child.pid
