-- ===== src/Proc/Handler/Return.antt =====
-- kernel/proc/signal.c: the return from a handler gives the process back the state in which the
-- signal found it.
use pi_os.Common.{
  ℕ, ◌+◌, ◌-◌, ◌*◌, ◌≤◌, ◌<◌, ◌≡◌, ◌≢◌, refl, sym, ap, ◌∙◌, arith, Bool-cases, inl, inr, ◌==◌,
  ==→eq, ==→ne, ne→==, true, eq→==, none, some, List, leb, get_or, set, length, length-set,
  get_or-set_self, get_or-set_ne,
}
use pi_os.Common.Word.{add16, sub16}
use pi_os.Proc.{Signal, Proc}
use pi_os.Proc.Virtual.{Memory, store_at, bytes_at, memcpy_from_userspace, memcpy_to_userspace}
use pi_os.Proc.Virtual.Bytewise.{
  user_bytes-page, user_store-page, memcpy_from_userspace-user_bytes,
  memcpy_to_userspace-user_store,
}
use pi_os.Proc.Handler.{
  bytes_of, state_words, signal_words, handler_regs, handler_state, signal_handler_enter,
  signal_handler_return,
}
use pi_os.Proc.Handler.Layout.{IsWhole, length-bytes_of, length-state_words, state_of-bytes}
use pi_os.Proc.Handler.Frame.{bytes_at-store_at, bytes_at-store_at_after}

-- The stack pointer of the process when the signal finds it.
abbrev pub stack_pointer : Proc → ℕ
stack_pointer proc = get_or proc.proc_state.regs 7 0

-- The stack page holds the frame of a handler.
pub record HasRoom (proc : Proc) : Type 0 where
  pub low : 0xF05C ≤ stack_pointer proc
  pub high : stack_pointer proc < 0x1_0000

abbrev pub frame_state : Proc → List ℕ
frame_state proc = bytes_of (state_words proc.proc_state)

abbrev pub mem_pages : Proc → List ℕ
mem_pages proc = proc.syscall_state.mem_pages

-- A copy to the stack page
to_stack :
    (mem : Memory) (proc : Proc) (r : ℕ) (xs : List ℕ)
    → r + length xs < 0x1000
    → memcpy_to_userspace mem proc (0x1000 * 15 + r) xs
      ≡ store_at mem (get_or (mem_pages proc) 15 0) r xs
to_stack mem proc r xs h =
    memcpy_to_userspace-user_store mem proc (0x1000 * 15 + r) xs (omega arith) (omega arith)
    ∙ user_store-page mem (mem_pages proc) xs 15 r (omega arith) (omega arith)

module _ (mem : Memory) (proc : Proc) (signal : Signal) (w : IsWhole proc.proc_state)
    (room : HasRoom proc) where
  -- The place of the saved state in the stack page, and that of the signal.
  abbrev pub saved_at : ℕ
  saved_at = stack_pointer proc - 86 - 0xF000

  abbrev pub frame_memory : Memory
  frame_memory =
      store_at (store_at mem (get_or (mem_pages proc) 15 0) saved_at (frame_state proc))
        (get_or (mem_pages proc) 15 0) (saved_at - 4) (bytes_of (signal_words signal))

  state_length : saved_at + length (frame_state proc) < 0x1000
  state_length = omega (
    arith,
    length-bytes_of (state_words proc.proc_state),
    length-state_words proc.proc_state w,
    room.low,
    room.high,
  )

  pub enter_result :
      proc.sighandler ≢ 0
      → signal_handler_enter mem proc signal
        ≡ some (frame_memory, handler_state proc (stack_pointer proc - 92))
  unfolding signal_handler_enter
  enter_result h =
      let sp = stack_pointer proc in
      let e1 : sub16 (sub16 sp 4) 84 ≡ sp - 88 = omega (arith, room.low, room.high) in
      let e2 : sub16 (sp - 88) 4 ≡ sp - 92 = omega (arith, room.low, room.high) in
      let a : add16 (sp - 88) 2 ≡ 0x1000 * 15 + saved_at = omega (arith, room.low, room.high) in
      let b : add16 (sp - 92) 2 ≡ 0x1000 * 15 + (saved_at - 4) =
        omega (arith, room.low, room.high) in
      let high : leb 0xF000 (sp - 92) ≡ true = ground (arith, room.low) in
      rw
        (
          e1,
          e2,
          a,
          b,
          high,
          ne→== proc.sighandler 0 h,
          to_stack mem proc saved_at (frame_state proc) (omega (arith, state_length)),
          to_stack (store_at mem (get_or (mem_pages proc) 15 0) saved_at (frame_state proc)) proc
              (saved_at - 4) (bytes_of (signal_words signal))
              (omega (arith, length-bytes_of (signal_words signal))),
        )
        refl

-- A read of the saved state from the memory that the entry leaves
saved_bytes :
    (mem : Memory) (proc q : Proc) (signal : Signal)
    → (w : IsWhole proc.proc_state) → (room : HasRoom proc) → mem_pages q ≡ mem_pages proc
    → memcpy_from_userspace
        (frame_memory mem proc signal w room)
        q
        (0x1000 * 15 + saved_at mem proc signal w room)
        84
      ≡ frame_state proc
saved_bytes mem proc q signal w room same =
    let page : ℕ = get_or (mem_pages proc) 15 0 in
    let at : ℕ = saved_at mem proc signal w room in
    let len : length (frame_state proc) ≡ 84 = omega (
      arith,
      length-bytes_of (state_words proc.proc_state),
      length-state_words proc.proc_state w,
    ) in
    let frame : Memory = frame_memory mem proc signal w room in
    memcpy_from_userspace-user_bytes frame q (0x1000 * 15 + at) 84
      (omega (arith, room.low, room.high)) (omega arith)
    ∙ user_bytes-page frame (mem_pages q) 84 15 at (omega arith)
        (omega (arith, room.low, room.high))
    ∙ ap (λ pages. bytes_at frame (get_or pages 15 0) at 84) same
    ∙ bytes_at-store_at_after (store_at mem page at (frame_state proc)) page (at - 4)
        (bytes_of (signal_words signal)) 84 at
        (omega (arith, length-bytes_of (signal_words signal), room.low))
    ∙ ap (bytes_at (store_at mem page at (frame_state proc)) page at) (sym len)
    ∙ bytes_at-store_at mem page at (frame_state proc)

no_handler :
    (mem : Memory) (proc : Proc) (signal : Signal)
    → proc.sighandler ≡ 0
    → signal_handler_enter mem proc signal ≡ none
unfolding signal_handler_enter
no_handler mem proc signal h =
    simp (eq→== proc.sighandler 0 h)
      (elim (Bool-cases (leb 0xF000 (sub16 (sub16 (sub16 (stack_pointer proc) 4) 84) 4))) [
        | inl high ↦ simp high refl
        | inr low ↦ simp low refl
      ])

pub entered_result :
    (mem mem1 : Memory) (proc proc1 : Proc) (signal : Signal)
    → (w : IsWhole proc.proc_state) → (room : HasRoom proc)
    → signal_handler_enter mem proc signal ≡ some (mem1, proc1)
    → (mem1 ≡ frame_memory mem proc signal w room)
      × (proc1 ≡ handler_state proc (stack_pointer proc - 92))
entered_result mem mem1 proc proc1 signal w room entered =
    elim (Bool-cases (proc.sighandler == 0)) [
      | inl none_set ↦ absurd (cc (no_handler mem proc signal (==→eq _ _ none_set)))
      | inr set ↦ let e = enter_result mem proc signal w room (==→ne _ _ set) in (cc e, cc e)
    ]

handler_frame_pointer :
    (regs : List ℕ) (sp : ℕ) → length regs ≡ 8 → get_or (handler_regs regs sp) 5 0 ≡ sp
handler_frame_pointer regs sp h =
    let args : List ℕ = set (set regs 0 (add16 sp 2)) 1 1 in
    get_or-set_ne (set (set args 5 sp) 6 0) 7 5 sp 0 (omega arith)
    ∙ get_or-set_ne (set args 5 sp) 6 5 0 0 (omega arith)
    ∙ get_or-set_self args 5 sp 0
        (omega (arith, h, length-set (set regs 0 (add16 sp 2)) 1 1, length-set regs 0 (add16 sp 2)))

-- A signal that finds a process with a handler and room on its stack page enters the handler, and when
-- the handler returns, by a system call with the frame pointer that it was given and the same
-- stack page, over memory that has kept the saved state, the process has again the state in which the signal found it, and takes signals again.
pub signal_handler_return-enter :
    (mem mem1 mem2 : Memory) (proc proc1 q : Proc) (signal : Signal)
    → IsWhole proc.proc_state
    → HasRoom proc
    → signal_handler_enter mem proc signal ≡ some (mem1, proc1)
    → get_or q.syscall_state.regs 5 0 ≡ get_or proc1.proc_state.regs 5 0
    → mem_pages q ≡ mem_pages proc
    → memcpy_from_userspace mem2 q (stack_pointer proc - 86) 84
      ≡ memcpy_from_userspace mem1 q (stack_pointer proc - 86) 84
    → signal_handler_return mem2 q
      ≡ some (record q { syscall_state = proc.proc_state; signals_hold = 0 })
unfolding signal_handler_return
signal_handler_return-enter mem mem1 mem2 proc proc1 q signal w room entered fp same kept =
    let sp = stack_pointer proc in
    let (m, p) = entered_result mem mem1 proc proc1 signal w room entered in
    let there : sp - 86 ≡ 0x1000 * 15 + saved_at mem proc signal w room = omega (arith, room.low) in
    let read : memcpy_from_userspace mem2 q (sp - 86) 84 ≡ frame_state proc =
      kept
      ∙ ap (λ t. memcpy_from_userspace t q (sp - 86) 84) m
      ∙ ap (λ u. memcpy_from_userspace (frame_memory mem proc signal w room) q u 84) there
      ∙ saved_bytes mem proc q signal w room same in
    let five : get_or q.syscall_state.regs 5 0 ≡ sp - 92 =
      fp
      ∙ ap (λ (t : Proc). get_or t.proc_state.regs 5 0) p
      ∙ handler_frame_pointer proc.proc_state.regs (sp - 92) w.eight in
    let e1 : add16 (sp - 92) 4 ≡ sp - 88 = omega (arith, room.low, room.high) in
    let e2 : add16 (sp - 88) 2 ≡ sp - 86 = omega (arith, room.low, room.high) in
    let e3 : add16 (sp - 88) 88 ≡ sp = omega (arith, room.low, room.high) in
    let whole = state_of-bytes proc.proc_state w in
    simp (five, e1, e2, e3, read, whole, eq→== sp sp refl) refl
