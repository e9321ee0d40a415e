-- ===== src/Proc/Sched/Hang.antt =====
-- When the process that ran last is dead, the scheduler does not reach its test for the idle process.
use pi_os.Common.{
  ℕ, zero, suc, ◌<◌, ◌≡◌, refl, ap, ◌∙◌, sym, arith, Bool, false, inl, inr, Option, none, some,
  List, ◌==◌, if◌then◌else◌, length, get_elem?, set-get_elem?, get_elem?-lt, Bool-cases, eq→==,
  ==→eq, lt-of_get_elem?,
}
use pi_os.Libk.Semaphore.{Counts}
use pi_os.Proc.{Proc, dead}
use pi_os.Proc.Sched.{
  Sched, skipped, passed, is_ready, can_take, ring_alarm, wake_or_pass, visit, next_place, done,
  out_of_fuel, visited, end_round, visit_proc, visit_next, pick_loop, sched_pick_next,
}
use pi_os.Proc.Sched.Order.{next_place-lt}

-- A process that can do nothing now: it is not ready, its semaphore is not up and no alarm is set.
pub record IsStuck (counts : Counts) (p : Proc) : Type 0 where
  pub not_ready : is_ready p ≡ false
  pub waits : can_take counts p.sema_blocked ≡ false
  pub no_alarm : p.alarm_ticks ≡ 0

visit-stuck :
    (counts : Counts) (t : ℕ) (p : Proc)
    → IsStuck counts p
    → visit counts t p ≡ ((if p.state == dead then skipped else passed), p, counts)
unfolding visit ring_alarm wake_or_pass
visit-stuck counts t p h = ground (arith, h.not_ready, h.waits, h.no_alarm)

module _ (f : ℕ) (q : Proc) (counts : Counts) (procs : List Proc) (t : ℕ)
    (here : get_elem? procs f ≡ some q) (gone : q.state ≡ dead)
    (stuck : (i : ℕ) (p : Proc) → get_elem? procs i ≡ some p → IsStuck counts p)
    (inside : f < length procs) where
  abbrev at : Option ℕ → Option ℕ → Sched
  at last current = record {
    procs = procs;
    last_element = last;
    current = current;
    counts = counts;
    sys_ticks = t;
  }

  visit_next-stuck :
      (last current : Option ℕ)
      → (i : ℕ) × (p : Proc) × (get_elem? procs i ≡ some p)
        × (visit_next (at last current)
            ≡ some ((if p.state == dead then skipped else passed), i, at (some i) current))
  unfolding visit_next
  visit_next-stuck last current =
      let i = next_place (length procs) last in
      let (p, there) = get_elem?-lt procs i (next_place-lt (length procs) last (omega arith)) in
      (
        i,
        p,
        there,
        ap (visit_proc (at last current) i) there
            ∙ ap (λ v. some (v.0, i, visited (at last current) i (v.1, v.2)))
                (visit-stuck counts t p (stuck i p there))
            ∙ ap
                (λ l. some (
                  (if p.state == dead then skipped else passed),
                  i,
                  record (at (some i) current) { procs = l },
                ))
                (set-get_elem? procs i p there),
      )

  dead_at : (i : ℕ) (p : Proc) → get_elem? procs i ≡ some p → i ≡ f → p.state ≡ dead
  dead_at i p there e = some_state (sym there ∙ ap (get_elem? procs) e ∙ here) ∙ gone
    where
      some_state : some p ≡ some q → p.state ≡ q.state
      some_state h = cc

  end_round-stuck :
      (i : ℕ) (p : Proc) (s : Sched)
      → get_elem? procs i ≡ some p
      → end_round (some f) i s (if p.state == dead then skipped else passed) out_of_fuel
        ≡ out_of_fuel
  unfolding end_round
  end_round-stuck i p s there = elim (Bool-cases (p.state == dead)) [
    | inl gone' ↦ rw gone'
    | inr alive ↦ elim (Bool-cases (i == f)) [
      | inl same ↦ absurd (cc (sym (eq→== _ _ (dead_at i p there (==→eq i f same))) ∙ alive))
      | inr away ↦
          rw (alive, end_round)
            (ap (λ (b : Bool). if b then done (record s { current = none }) else out_of_fuel) away)
    ]
  ]

  pick_loop-stuck :
      (fuel : ℕ) (last current : Option ℕ) → pick_loop fuel (some f) (at last current) ≡ out_of_fuel
  unfolding pick_loop
  pick_loop-stuck zero last current = refl
  pick_loop-stuck (suc fuel) last current =
      let (i, p, there, e) = visit_next-stuck last current in
      let again = pick_loop-stuck fuel (some i) current in
      rw (e, pick_loop)
        (ap
            (end_round (some f) i (at (some i) current)
              (if p.state == dead then skipped else passed))
            again
          ∙ end_round-stuck i p (at (some i) current) there)

-- When the process that ran last has died and no process can go on, `sched_pick_next` never
-- returns, however long it runs: it does not fall back on the idle process.
pub sched_pick_next_hangs :
    (s : Sched) (f : ℕ) (q : Proc)
    → s.last_element ≡ some f
    → get_elem? s.procs f ≡ some q
    → q.state ≡ dead
    → ((i : ℕ) (p : Proc) → get_elem? s.procs i ≡ some p → IsStuck s.counts p)
    → (fuel : ℕ) → sched_pick_next fuel s ≡ out_of_fuel
unfolding sched_pick_next
sched_pick_next_hangs s f q last here gone stuck fuel =
    ap (λ o. pick_loop fuel o s) last
    ∙ pick_loop-stuck f q s.counts s.procs s.sys_ticks here gone stuck
        (lt-of_get_elem? s.procs f q here) fuel s.last_element s.current
