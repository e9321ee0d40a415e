-- ===== src/Proc/Sched.antt =====
-- kernel/proc/sched.c: the choice of the next process.
-- `last_element` is a place in the process list; `current` is `none` for the idle process.
pub mod Order
pub mod Hang
pub mod Tests
use pi_os.Common.{
  ℕ, zero, suc, ◌+◌, ◌%◌, Bool, true, false, ◌||◌, ◌&&◌, not, Option, none, some, List, [], ◌∷◌,
  leb, ltb, ◌==◌, if◌then◌else◌, length, get_elem?, set,
}
use pi_os.Common.Word.{is_neg16}
use pi_os.Libk.Semaphore.{Counts}
use pi_os.Proc.{Signal, Proc, runnable, blocked, syscall, syscall_blocked, dead}
use pi_os.Proc.Signals.{signal_send, sig_type_alarm}

pub record Sched : Type 0 where
  pub procs : List Proc
  pub last_element : Option ℕ
  pub current : Option ℕ
  pub counts : Counts
  pub sys_ticks : ℕ

-- How a round of the loop ends.
pub data Verdict : Type 0 where
  -- `continue`, before the test for the end of the list
  skipped : Verdict
  -- `break`
  picked : Verdict
  -- on to the test for the end of the list
  passed : Verdict

abbrev pub is_ready : Proc → Bool
is_ready p = (p.state == runnable) || (p.state == syscall)

-- `alarm_ticks` is compared by its low word.
unfoldable pub ring_alarm : Counts → ℕ → Proc → Proc × Counts
ring_alarm counts sys_ticks p =
    if not (p.alarm_ticks == 0) && leb (p.alarm_ticks % 0x1_0000) (sys_ticks % 0x1_0000)
    then (let (p', counts') =
          signal_send counts p
            (record { kind = sig_type_alarm; number = p.alarm_ticks % 0x1_0000 }) in
        (record p' { alarm_ticks = 0 }, counts'))
    else (p, counts)

-- `lproc->sema_blocked && lproc->sema_blocked->count > 0`
abbrev pub can_take : Counts → Option ℕ → Bool
can_take counts none = false
can_take counts (some s) = ltb 0 (counts s) && not (is_neg16 (counts s))

unfoldable pub wake_or_pass : Counts → Proc → Verdict × Proc
wake_or_pass counts p =
    if ((p.state == blocked) || (p.state == syscall_blocked)) && can_take counts p.sema_blocked
    then (
      picked,
      record p { state = if p.state == blocked then runnable else syscall; sema_blocked = none },
    )
    else (passed, p)

-- The body of the loop on one process, up to the test for the end of the list.
unfoldable pub visit : Counts → ℕ → Proc → Verdict × Proc × Counts
visit counts sys_ticks p =
    if p.state == dead
    then (skipped, p, counts)
    else (let (p', counts') = ring_alarm counts sys_ticks p in
        if is_ready p'
        then (picked, p', counts')
        else let (v, p'') = wake_or_pass counts' p' in (v, p'', counts'))

unfoldable pub next_place : ℕ → Option ℕ → ℕ
next_place n none = 0
next_place n (some i) = if ltb (i + 1) n then i + 1 else 0

-- Whether `last_element == first_element`.
abbrev pub at_place : Option ℕ → ℕ → Bool
at_place none i = false
at_place (some first) i = i == first

pub data Pick : Type 0 where
  done : Sched → Pick
  out_of_fuel : Pick
  -- `ASSERT(proc_list.first != NULL)`
  panics : Pick

-- The state behind a visit of place `i`.
abbrev pub visited : Sched → ℕ → Proc × Counts → Sched
visited s i (p, counts) = record s {
  procs = set s.procs i p;
  last_element = some i;
  counts = counts;
}

-- How the round at place `i` ends, `again` being the rest of the loop.
unfoldable pub end_round : Option ℕ → ℕ → Sched → Verdict → Pick → Pick
end_round first i s skipped again = again
end_round first i s picked again = done (record s { current = some i })
end_round first i s passed again =
    if at_place first i then done (record s { current = none }) else again

-- The visit of the next place of the list.
abbrev pub visit_proc : Sched → ℕ → Option Proc → Option (Verdict × ℕ × Sched)
visit_proc s i none = none
visit_proc s i (some p) =
    let (v, p', counts') = visit s.counts s.sys_ticks p in some (v, i, visited s i (p', counts'))

unfoldable pub visit_next : Sched → Option (Verdict × ℕ × Sched)
visit_next s =
    let i = next_place (length s.procs) s.last_element in visit_proc s i (get_elem? s.procs i)

-- The loop from `last_element` on, with fuel.
unfoldable pub pick_loop : ℕ → Option ℕ → Sched → Pick
pick_loop zero first s = out_of_fuel
pick_loop (suc fuel) first s = elim (visit_next s) [
  | none ↦ panics
  | some (v, i, s') ↦ let again = pick_loop fuel first s' in end_round first i s' v again
]

unfoldable pub sched_pick_next : ℕ → Sched → Pick
sched_pick_next fuel s = pick_loop fuel s.last_element s
