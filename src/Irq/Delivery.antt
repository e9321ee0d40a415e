-- ===== src/Irq/Delivery.antt =====
-- kernel/irq/interrupt.c: a signal at the end of a system call.
use pi_os.Common.{
  ℕ, ◌-◌, ◌<◌, ◌≡◌, ◌≢◌, refl, ap, ◌∙◌, arith, true, some, List, ◌∷◌, ◌&&◌, not, ltb, get_or, eq→==,
  ne→==,
}
use pi_os.Libk.Semaphore.{Counts, update}
use pi_os.Common.Word.{is_neg16}
use pi_os.Proc.{Signal, Proc, runnable}
use pi_os.Proc.Virtual.{Memory, memcpy_from_userspace}
use pi_os.Proc.Handler.{signal_handler_enter, signal_handler_return}
use pi_os.Proc.Handler.Layout.{IsWhole}
use pi_os.Proc.Handler.Return.{
  HasRoom, stack_pointer, mem_pages, entered_result, signal_handler_return-enter,
}
use pi_os.Irq.Syscall.{pop_signal, deliver_first, back_to_user, leave_call}

-- The process with its own state back, as it would run on without a signal.
abbrev pub returned : Proc → Proc
returned p = record p { proc_state = p.syscall_state }

pop_signal-some :
    (counts : Counts) (later : List Signal) (mem : Memory) (p : Proc) (sema : ℕ)
    → p.signal_sema ≡ sema
    → 0 < counts sema
    → counts sema < 0x8000
    → pop_signal counts later (some (mem, p))
      ≡ some (record {
        proc = record p { signal_queue = later };
        mem = mem;
        counts = update counts sema (counts sema - 1);
      })
pop_signal-some counts later mem p sema same some_count small =
    let pending : (ltb 0 (counts sema) && not (is_neg16 (counts sema))) ≡ true =
      ground (arith, some_count, small) in
    simp (same, pending) refl

-- The first pending signal of a process that does not hold signals is delivered at the end of its
-- system call: it is taken from the queue and its count from the semaphore, the rest of the queue
-- waits, and the process runs the handler, as `signal_handler_enter` sets it up over the state that
-- the call leaves. When the handler returns, by a system call with the frame pointer that it was
-- given and the same stack page, over memory that has kept the saved state, the process has again
-- the state that the first call left, and takes signals again. The stack has room, and the count is
-- positive.
pub leave_call-signal_handler_return :
    (mem mem1 mem2 : Memory) (counts : Counts) (p proc1 q : Proc) (signal : Signal)
    (later : List Signal)
    → IsWhole p.syscall_state
    → HasRoom (returned p)
    → p.signal_queue ≡ signal ∷ later
    → p.signals_hold ≡ 0
    → p.sighandler ≢ 0
    → 0 < counts p.signal_sema
    → counts p.signal_sema < 0x8000
    → signal_handler_enter mem (returned p) signal ≡ some (mem1, proc1)
    → get_or q.syscall_state.regs 5 0 ≡ get_or proc1.proc_state.regs 5 0
    → mem_pages q ≡ mem_pages p
    → memcpy_from_userspace mem2 q (stack_pointer (returned p) - 86) 84
      ≡ memcpy_from_userspace mem1 q (stack_pointer (returned p) - 86) 84
    → (leave_call mem counts p
        ≡ some (record {
          proc = record proc1 { signal_queue = later; state = runnable };
          mem = mem1;
          counts = update counts p.signal_sema (counts p.signal_sema - 1);
        }))
      × (signal_handler_return mem2 q
          ≡ some (record q { syscall_state = p.syscall_state; signals_hold = 0 }))
unfolding leave_call
leave_call-signal_handler_return mem mem1 mem2 counts p proc1 q signal later w room queue free
      handler some_count small entered fp same kept =
    let (m, made) = entered_result mem mem1 (returned p) proc1 signal w room entered in
    let taken : pop_signal counts later (signal_handler_enter mem (returned p) signal)
        ≡ some (record {
          proc = record proc1 { signal_queue = later };
          mem = mem1;
          counts = update counts p.signal_sema (counts p.signal_sema - 1);
        }) =
      ap (pop_signal counts later) entered
      ∙ pop_signal-some counts later mem1 proc1 p.signal_sema (ap (λ r. r.signal_sema) made)
          some_count small in
    let delivered : deliver_first mem counts (returned p) (signal ∷ later)
        ≡ pop_signal counts later (signal_handler_enter mem (returned p) signal) =
      simp (eq→== p.signals_hold 0 free, ne→== p.sighandler 0 handler) refl in
    (
      ap (λ signals. back_to_user (deliver_first mem counts (returned p) signals)) queue
          ∙ ap back_to_user (delivered ∙ taken),
      signal_handler_return-enter mem mem1 mem2 (returned p) proc1 q signal w room entered fp same
          kept,
    )
