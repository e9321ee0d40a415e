-- ===== src/Proc/Sched/Tests.antt =====
-- sched.c on a list of three processes.
use pi_os.Common.{
  ℕ, zero, suc, ◌≤◌, ◌<◌, ◌≡◌, refl, arith, ◌⊎◌, true, Option, none, some, [], ◌∷◌, get_elem?,
}
use pi_os.Libk.Semaphore.{Counts}
use pi_os.Proc.{ProcState, Proc, runnable, blocked, dead}
use pi_os.Proc.Sched.{
  Sched, is_ready, ring_alarm, wake_or_pass, visit, next_place, done, out_of_fuel, end_round,
  visit_next, pick_loop, sched_pick_next,
}
use pi_os.Proc.Sched.Order.{
  IsValid, distance, first_place, sched_pick_next_nearest, sched_pick_next_returns,
}
use pi_os.Proc.Sched.Hang.{IsStuck, sched_pick_next_hangs}

abbrev no_state : ProcState
no_state = record { regs = []; pc = 0; arith_flags = 0; mem_pages = []; prog_pages = [] }

abbrev proc : (pid state : ℕ) → Option ℕ → Proc
proc pid state sema = record {
  pid = pid;
  state = state;
  kind = 0;
  proc_state = no_state;
  syscall_state = no_state;
  name = [];
  kernel_stack_page = 0;
  open_files = [];
  parent = 0;
  sema_blocked = sema;
  signal_queue = [];
  signals_hold = 0;
  sighandler = 0;
  signal_sema = 100;
  load_brk = 0;
  alarm_ticks = 0;
}

abbrev down : Counts
down s = 0

abbrev ran_second : Sched
ran_second = record {
  procs = proc 1 runnable none ∷ proc 2 runnable none ∷ proc 3 blocked (some 7) ∷ [];
  last_element = some 1;
  current = some 1;
  counts = down;
  sys_ticks = 5;
}

abbrev second_died : Sched
second_died = record ran_second {
  procs = proc 1 blocked (some 7) ∷ proc 2 dead none ∷ proc 3 blocked (some 7) ∷ [];
}

takes_first :
    sched_pick_next 3 ran_second
    ≡ done (record ran_second { current = some 0; last_element = some 0 })
unfolding sched_pick_next pick_loop visit_next visit ring_alarm wake_or_pass next_place end_round
takes_first = refl

ran_second-IsValid : IsValid ran_second
ran_second-IsValid = record { inside = λ f e. inside f e }
  where
    inside : (f : ℕ) → some 1 ≡ some f → f < 3
    inside f e = ground arith

sched_pick_next_nearest_example :
    (s' : Sched) × (k : ℕ) × (q : Proc) × (sched_pick_next 3 ran_second ≡ done s')
    × (s'.current ≡ some k)
    × (s'.last_element ≡ some k)
    × (get_elem? s'.procs k ≡ some q)
    × (is_ready q ≡ true)
    × (distance 3 (first_place ran_second) k ≤ distance 3 (first_place ran_second) 0)
sched_pick_next_nearest_example =
    sched_pick_next_nearest ran_second 0 (proc 1 runnable none) 3 ran_second-IsValid refl refl
      (omega arith)

sched_pick_next_returns_example :
    (s' : Sched) × (sched_pick_next 3 ran_second ≡ done s')
    × (((k : ℕ) × (q : Proc) × (s'.current ≡ some k)
          × (get_elem? s'.procs k ≡ some q)
          × (is_ready q ≡ true))
        ⊎ ((s'.current ≡ none) × (s'.last_element ≡ some 1)))
sched_pick_next_returns_example =
    sched_pick_next_returns ran_second 1 (proc 2 runnable none) 3 refl refl (omega arith)
      (omega arith)

IsStuck-some : (q p : Proc) → some q ≡ some p → IsStuck down q → IsStuck down p
IsStuck-some q p e h = record {
  not_ready = cc (e, h.not_ready);
  waits = cc (e, h.waits);
  no_alarm = cc (e, h.no_alarm);
}

waiting-IsStuck : (pid : ℕ) → IsStuck down (proc pid blocked (some 7))
waiting-IsStuck pid = record { not_ready = refl; waits = refl; no_alarm = refl }

all-IsStuck : (i : ℕ) (p : Proc) → get_elem? second_died.procs i ≡ some p → IsStuck down p
all-IsStuck zero p e = IsStuck-some _ p e (waiting-IsStuck 1)
all-IsStuck (suc zero) p e =
    IsStuck-some (proc 2 dead none) p e (record { not_ready = refl; waits = refl; no_alarm = refl })
all-IsStuck (suc (suc zero)) p e = IsStuck-some _ p e (waiting-IsStuck 3)
all-IsStuck (suc (suc (suc i))) p e = absurd (ground (arith, e))

sched_pick_next_hangs_example : sched_pick_next 1000 second_died ≡ out_of_fuel
sched_pick_next_hangs_example =
    sched_pick_next_hangs second_died 1 (proc 2 dead none) refl refl refl all-IsStuck 1000
