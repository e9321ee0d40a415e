-- ===== src/Proc/Handler.antt =====
-- kernel/proc/signal.c: the entry of a signal handler and the return from it, through the stack of
-- the process. A structure in memory is its bytes, each word with its low byte first.
pub mod Layout
pub mod Frame
pub mod Return
mod Tests
use pi_os.Common.{
  ℕ, zero, suc, ◌+◌, ◌*◌, ◌/◌, ◌%◌, Option, none, some, List, [], ◌∷◌, ◌++◌, leb, ◌==◌,
  if◌then◌else◌, get_or, set, take, drop,
}
use pi_os.Common.Word.{add16, sub16}
use pi_os.Proc.{Signal, ProcState, Proc}
use pi_os.Proc.Virtual.{Memory, memcpy_from_userspace, memcpy_to_userspace}

-- `sizeof(struct proc_state)` and `sizeof(struct signal)`
abbrev pub state_size : ℕ
state_size = 84

abbrev pub signal_size : ℕ
signal_size = 4

unfoldable pub bytes_of : List ℕ → List ℕ
bytes_of [] = []
bytes_of (w ∷ ws) = w % 256 ∷ w / 256 ∷ bytes_of ws

unfoldable pub words_of : List ℕ → List ℕ
words_of [] = []
words_of (x ∷ []) = []
words_of (x ∷ y ∷ xs) = (x + 256 * y) ∷ words_of xs

abbrev pub state_words : ProcState → List ℕ
state_words st = st.regs ++ (st.pc ∷ st.arith_flags ∷ st.mem_pages ++ st.prog_pages)

unfoldable pub state_of : List ℕ → ProcState
state_of ws =
    let rest = drop 8 ws in
    record {
      regs = take 8 ws;
      pc = get_or rest 0 0;
      arith_flags = get_or rest 1 0;
      mem_pages = take 16 (drop 2 rest);
      prog_pages = drop 16 (drop 2 rest);
    }

abbrev pub signal_words : Signal → List ℕ
signal_words signal = signal.kind ∷ signal.number ∷ []

-- The registers at the entry of the handler: the signal is its argument.
abbrev pub handler_regs : List ℕ → (sp : ℕ) → List ℕ
handler_regs regs sp = set (set (set (set (set regs 0 (add16 sp 2)) 1 1) 5 sp) 6 0) 7 sp

abbrev pub handler_state : Proc → (sp : ℕ) → Proc
handler_state proc sp = record proc {
  signals_hold = 1;
  proc_state = record proc.proc_state {
    regs = handler_regs proc.proc_state.regs sp;
    pc = proc.sighandler;
  };
}

-- `none` is a failed `ASSERT`.
unfoldable pub signal_handler_enter : Memory → Proc → Signal → Option (Memory × Proc)
signal_handler_enter mem proc signal =
    let sp1 = sub16 (sub16 (get_or proc.proc_state.regs 7 0) 4) state_size in
    let mem1 =
      memcpy_to_userspace mem proc (add16 sp1 2) (bytes_of (state_words proc.proc_state)) in
    let sp2 = sub16 sp1 signal_size in
    let mem2 = memcpy_to_userspace mem1 proc (add16 sp2 2) (bytes_of (signal_words signal)) in
    if leb 0xF000 sp2
    then (if proc.sighandler == 0 then none else some (mem2, handler_state proc sp2))
    else none

unfoldable pub signal_handler_return : Memory → Proc → Option Proc
signal_handler_return mem proc =
    let sp1 = add16 (get_or proc.syscall_state.regs 5 0) signal_size in
    let saved = state_of (words_of (memcpy_from_userspace mem proc (add16 sp1 2) state_size)) in
    let sp2 = add16 sp1 (state_size + 4) in
    if sp2 == get_or saved.regs 7 0
    then some (record proc { syscall_state = saved; signals_hold = 0 })
    else none
