-- ===== src/Irq/Saved.antt =====
-- What an interrupt leaves of the states of the processes.
use pi_os.Common.{
  ℕ, zero, suc, ◌%◌, ◌≡◌, refl, sym, ap, ◌∙◌, Bool, true, false, ◌||◌, ◌&&◌, Option, none, some,
  List, [], ◌∷◌, leb, ◌==◌, if◌then◌else◌, length, get_elem?, set, get_or, Bool-cases, inl, inr,
  subst, not,
}
use pi_os.Libk.Semaphore.{Counts}
use pi_os.Proc.{ProcState, Proc, blocked, syscall_blocked, dead, unloaded}
use pi_os.Proc.Signals.{signal_send}
use pi_os.Proc.Sched.{
  Sched, Verdict, skipped, picked, passed, is_ready, ring_alarm, can_take, wake_or_pass, visit,
  next_place, at_place, Pick, done, out_of_fuel, panics, visited, end_round, visit_proc, visit_next,
  pick_loop, sched_pick_next,
}
use pi_os.Driver.Keyboard.{Keyboard, print_scancode}
use pi_os.Irq.{
  SendKey, send_keys, after_keys, tick_and_leave, Frame, Pending, Cpu, HandlerEnd, double_fault,
  irq_panics, hangs, enters_syscall, switches, is_syscall, is_segfault, current_proc, save_state,
  handle_segfault, tick, leave, handle_keyboard, interrupt, with_picked, switch_checked,
  handle_devices, in_kernel, proc_at, put_at,
}

pub get_or-get_elem? :
    (procs : List Proc) (i : ℕ) (p idle : Proc)
    → get_elem? procs i ≡ some p
    → get_or procs i idle ≡ p
get_or-get_elem? [] i p idle e = cc
get_or-get_elem? (q ∷ procs) zero p idle e = cc
get_or-get_elem? (q ∷ procs) (suc i) p idle e = get_or-get_elem? procs i p idle e

-- What is restored when a process runs on.
abbrev pub saved_states : List Proc → List ProcState
saved_states [] = []
saved_states (p ∷ procs) = p.proc_state ∷ saved_states procs

saved_states-set :
    (procs : List Proc) (i : ℕ) (p : Proc)
    → saved_states (set procs i p) ≡ set (saved_states procs) i p.proc_state
saved_states-set [] i p = refl
saved_states-set (q ∷ procs) zero p = refl
saved_states-set (q ∷ procs) (suc i) p = ap (λ t. q.proc_state ∷ t) (saved_states-set procs i p)

saved_states-set_same :
    (procs : List Proc) (i : ℕ) (p p' : Proc)
    → get_elem? procs i ≡ some p
    → p'.proc_state ≡ p.proc_state
    → saved_states (set procs i p') ≡ saved_states procs
saved_states-set_same [] i p p' e same = refl
saved_states-set_same (q ∷ procs) zero p p' e same =
    let q_is_p : q.proc_state ≡ p.proc_state = ap (λ o. state_of q o) e in
    ap (λ t. t ∷ saved_states procs) (same ∙ sym q_is_p)
  where
    state_of : Proc → Option Proc → ProcState
    state_of q none = q.proc_state
    state_of q (some p) = p.proc_state
saved_states-set_same (q ∷ procs) (suc i) p p' e same =
    ap (λ t. q.proc_state ∷ t) (saved_states-set_same procs i p p' e same)

abbrev visit_state : Verdict × Proc × Counts → ProcState
visit_state (v, p, c) = p.proc_state

ring_alarm-proc_state :
    (counts : Counts) (t : ℕ) (p : Proc) → (ring_alarm counts t p).0.proc_state ≡ p.proc_state
unfolding ring_alarm signal_send
ring_alarm-proc_state counts t p =
    elim (Bool-cases (not (p.alarm_ticks == 0) && leb (p.alarm_ticks % 0x1_0000) (t % 0x1_0000))) [
      | inl rings ↦ rw rings refl
      | inr quiet ↦ rw quiet refl
    ]

wake_or_pass-proc_state :
    (counts : Counts) (p : Proc) → (wake_or_pass counts p).1.proc_state ≡ p.proc_state
unfolding wake_or_pass
wake_or_pass-proc_state counts p =
    elim (Bool-cases
      (((p.state == blocked) || (p.state == syscall_blocked)) && can_take counts p.sema_blocked)) [
        | inl wakes ↦ rw wakes refl
        | inr sleeps ↦ rw sleeps refl
      ]

visit-proc_state :
    (counts : Counts) (t : ℕ) (p : Proc) → visit_state (visit counts t p) ≡ p.proc_state
unfolding visit
visit-proc_state counts t p = elim (Bool-cases (p.state == dead)) [
  | inl is_dead ↦ rw is_dead refl
  | inr alive ↦
      let p' = (ring_alarm counts t p).0 in
      elim (Bool-cases (is_ready p')) [
        | inl ready ↦ rw (alive, ready) (ring_alarm-proc_state counts t p)
        | inr waits ↦
            rw (alive, waits)
              (wake_or_pass-proc_state (ring_alarm counts t p).1 p'
                ∙ ring_alarm-proc_state counts t p)
      ]
]

abbrev PickKeeps : List ProcState → Pick → Type 0
PickKeeps states (done s) = saved_states s.procs ≡ states
PickKeeps states out_of_fuel = Unit {0}
PickKeeps states panics = Unit {0}

end_round-PickKeeps :
    (states : List ProcState) (first : Option ℕ) (i : ℕ) (s : Sched) (v : Verdict) (again : Pick)
    → saved_states s.procs ≡ states
    → PickKeeps states again
    → PickKeeps states (end_round first i s v again)
unfolding end_round
end_round-PickKeeps states first i s skipped again here later = later
end_round-PickKeeps states first i s picked again here later = here
end_round-PickKeeps states first i s passed again here later =
    elim (Bool-cases (at_place first i)) [ inl last ↦ rw last here | inr more ↦ rw more later ]

pick_loop-PickKeeps :
    (fuel : ℕ) (first : Option ℕ) (s : Sched)
    → PickKeeps (saved_states s.procs) (pick_loop fuel first s)
unfolding pick_loop visit_next
pick_loop-PickKeeps zero first s = tt
pick_loop-PickKeeps (suc fuel) first s =
    by_proc (pick_loop-PickKeeps fuel first) (next_place (length s.procs) s.last_element)
      (get_elem? s.procs (next_place (length s.procs) s.last_element)) refl
  where
    by_proc :
        ((s' : Sched) → PickKeeps (saved_states s'.procs) (pick_loop fuel first s'))
        → (i : ℕ) (found : Option Proc) → get_elem? s.procs i ≡ found
        → PickKeeps (saved_states s.procs) (elim (visit_proc s i found) [
          | none ↦ panics
          | some (v, j, s') ↦ let again = pick_loop fuel first s' in end_round first j s' v again
        ])
    by_proc rest i none e = tt
    by_proc rest i (some p) e =
        let (v, p', c) = visit s.counts s.sys_ticks p in
        let same : saved_states (set s.procs i p') ≡ saved_states s.procs =
          saved_states-set_same s.procs i p p' e (visit-proc_state s.counts s.sys_ticks p) in
        end_round-PickKeeps (saved_states s.procs) first i (visited s i (p', c)) v _ same (
          subst (λ states. PickKeeps states (pick_loop fuel first (visited s i (p', c)))) same
            (rest (visited s i (p', c))))

-- The states of the processes when the handler is left.
abbrev pub Saves : {S : Type 0} → List ProcState → HandlerEnd S → Type 0
Saves states double_fault = Unit {0}
Saves states irq_panics = Unit {0}
Saves states hangs = Unit {0}
Saves states (enters_syscall page cpu) = saved_states cpu.sched.procs ≡ states
Saves states (switches cpu) = saved_states cpu.sched.procs ≡ states

-- The state that is saved for an interrupted process: the registers, and its page tables.
abbrev pub interrupted : Frame → ProcState → ProcState
interrupted frame st = record st {
  regs = frame.regs;
  pc = frame.pc;
  arith_flags = frame.arith_flags;
}

module _ {S : Type 0} where
  switch_checked-Saves :
      (states : List ProcState) (cpu : Cpu S)
      → saved_states cpu.sched.procs ≡ states
      → Saves states (switch_checked cpu)
  switch_checked-Saves states cpu same = elim (Bool-cases ((current_proc cpu).state == unloaded)) [
    | inl bad ↦ rw bad tt
    | inr ok ↦ rw ok same
  ]

  with_picked-Saves :
      (states : List ProcState) (cpu : Cpu S) (pick : Pick)
      → PickKeeps states pick
      → Saves states (with_picked cpu switch_checked pick)
  with_picked-Saves states cpu (done sched) same =
      switch_checked-Saves states (record cpu { sched = sched }) same
  with_picked-Saves states cpu out_of_fuel same = tt
  with_picked-Saves states cpu panics same = tt

  leave-Saves :
      (states : List ProcState) (fuel irq_flags : ℕ) (should_switch : Bool) (cpu : Cpu S)
      → saved_states cpu.sched.procs ≡ states
      → Saves states (leave fuel irq_flags should_switch cpu)
  unfolding leave sched_pick_next
  leave-Saves states fuel irq_flags should_switch cpu same =
      elim (Bool-cases (is_syscall irq_flags && not (in_kernel (current_proc cpu)))) [
        | inl calls ↦ rw calls same
        | inr runs ↦ rw runs (by_switch should_switch)
      ]
    where
      by_switch :
          (b : Bool)
          → Saves states (
              if b
              then with_picked
                  (record cpu { in_interrupt_handler = false })
                  switch_checked
                  (pick_loop fuel cpu.sched.last_element cpu.sched)
              else switch_checked (record cpu { in_interrupt_handler = false }))
      by_switch true =
          with_picked-Saves states (record cpu { in_interrupt_handler = false })
            (pick_loop fuel cpu.sched.last_element cpu.sched)
            (subst (λ t. PickKeeps t (pick_loop fuel cpu.sched.last_element cpu.sched)) same
              (pick_loop-PickKeeps fuel cpu.sched.last_element cpu.sched))
      by_switch false =
          switch_checked-Saves states (record cpu { in_interrupt_handler = false }) same

  tick-procs : (timer : Bool) (cpu : Cpu S) → (tick timer cpu).sched.procs ≡ cpu.sched.procs
  tick-procs true cpu = refl
  tick-procs false cpu = refl

  save_state-saved_states :
      (cpu : Cpu S) (frame : Frame) (i : ℕ) (p : Proc)
      → cpu.sched.current ≡ some i
      → get_elem? cpu.sched.procs i ≡ some p
      → saved_states (save_state cpu frame).sched.procs
        ≡ set (saved_states cpu.sched.procs) i (interrupted frame p.proc_state)
  save_state-saved_states cpu frame i p e found =
      subst
        (λ c.
          saved_states (put_at c cpu (saved (proc_at cpu.idle cpu.sched.procs c))).sched.procs
          ≡ set (saved_states cpu.sched.procs) i (interrupted frame p.proc_state))
        (sym e)
        (saved_states-set cpu.sched.procs i (saved (get_or cpu.sched.procs i cpu.idle))
          ∙ ap (λ q. set (saved_states cpu.sched.procs) i (interrupted frame q.proc_state))
              (get_or-get_elem? cpu.sched.procs i p cpu.idle found))
    where
      saved : Proc → Proc
      saved q = record q {
        proc_state = record q.proc_state {
          regs = frame.regs;
          pc = frame.pc;
          arith_flags = frame.arith_flags;
        };
      }

module _ {S : Type 0} (behind : (shift : Bool) → (scancode : ℕ) → ℕ) (send_key : SendKey S) where
  after_keys-Saves :
      (states : List ProcState) (fuel irq_flags : ℕ) (should_switch timer : Bool) (cpu : Cpu S)
      (keyboard : Keyboard) (sent : Option (Counts × S))
      → saved_states cpu.sched.procs ≡ states
      → Saves states (
          tick_and_leave behind send_key fuel irq_flags should_switch timer
            (after_keys behind send_key cpu keyboard sent))
  after_keys-Saves states fuel irq_flags should_switch timer cpu keyboard none same = tt
  after_keys-Saves states fuel irq_flags should_switch timer cpu keyboard (some (counts, devices))
        same =
      let cpu' : Cpu S = record cpu {
        sched = record cpu.sched { counts = counts };
        keyboard = keyboard;
        devices = devices;
      } in
      leave-Saves states fuel irq_flags should_switch (tick timer cpu')
        (ap saved_states (tick-procs timer cpu') ∙ same)

  handle_keyboard-Saves :
      (states : List ProcState) (fuel irq_flags : ℕ) (should_switch timer : Bool) (key : Option ℕ)
      (cpu : Cpu S)
      → saved_states cpu.sched.procs ≡ states
      → Saves states (
          tick_and_leave behind send_key fuel irq_flags should_switch timer
            (handle_keyboard behind send_key key cpu))
  unfolding handle_keyboard
  handle_keyboard-Saves states fuel irq_flags should_switch timer none cpu same =
      leave-Saves states fuel irq_flags should_switch (tick timer cpu)
        (ap saved_states (tick-procs timer cpu) ∙ same)
  handle_keyboard-Saves states fuel irq_flags should_switch timer (some scancode) cpu same =
      let (keyboard, keys) = print_scancode behind cpu.keyboard scancode in
      after_keys-Saves states fuel irq_flags should_switch timer cpu keyboard
        (send_keys behind send_key keys cpu.sched.counts cpu.devices) same

by_flags :
    {S : Type 0} (states : List ProcState) (inside enabled : Bool) (handled : HandlerEnd S)
    → Saves states handled
    → Saves states (if inside then double_fault else if enabled then handled else irq_panics)
by_flags states true enabled handled h = tt
by_flags states false true handled h = h
by_flags states false false handled h = tt

-- An interrupt of place `i` of the process list that is no fault leaves, wherever it goes on, the
-- registers that it interrupted as the state of this process, beside its page tables, and the state
-- of every other process as it was: the process that runs next runs on from its own state. (A double
-- fault, a panic and a scheduler that does not end leave nothing to run on.)
pub interrupt-Saves :
    {S : Type 0} (behind : (shift : Bool) → (scancode : ℕ) → ℕ) (send_key : SendKey S) (fuel : ℕ)
    (pending : Pending) (cpu : Cpu S) (frame : Frame) (i : ℕ) (p : Proc)
    → cpu.sched.current ≡ some i
    → get_elem? cpu.sched.procs i ≡ some p
    → is_segfault frame.irq_flags ≡ false
    → Saves
        (set (saved_states cpu.sched.procs) i (interrupted frame p.proc_state))
        (interrupt behind send_key fuel pending cpu frame)
unfolding interrupt handle_segfault
interrupt-Saves behind send_key fuel pending cpu frame i p e found no_fault =
    let cpu' = save_state (record cpu { in_interrupt_handler = true }) frame in
    let handled : Saves (set (saved_states cpu.sched.procs) i (interrupted frame p.proc_state))
        (handle_devices behind send_key fuel pending (handle_segfault cpu' frame.irq_flags)) =
      rw no_fault (
        handle_keyboard-Saves behind send_key _ fuel frame.irq_flags _ pending.timer
          pending.scancode cpu'
          (save_state-saved_states (record cpu { in_interrupt_handler = true }) frame i p e
            found)) in
    by_flags _ cpu.in_interrupt_handler cpu.scheduling_enabled _ handled
