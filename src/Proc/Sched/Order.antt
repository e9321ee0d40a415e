-- ===== src/Proc/Sched/Order.antt =====
-- The order in which the scheduler takes the processes.
use pi_os.Common.{
  ℕ, zero, suc, ◌+◌, ◌-◌, ◌≤◌, ◌<◌, ◌≡◌, ◌≢◌, refl, ap, ◌∙◌, sym, subst, arith, Bool, true, false,
  ◌⊎◌, inl, inr, Option, none, some, List, leb, if◌then◌else◌, length, length-set, get_elem?,
  get_elem?-set_self, get_elem?-set_ne, get_elem?-lt, lt-of_get_elem?, ℕ_discrete, Bool-cases,
}
use pi_os.Libk.Semaphore.{Counts}
use pi_os.Proc.{Proc, dead}
use pi_os.Proc.Signals.{signal_send}
use pi_os.Proc.Sched.{
  Sched, Verdict, skipped, picked, passed, is_ready, ring_alarm, wake_or_pass, visit, next_place,
  at_place, Pick, done, visited, end_round, visit_proc, visit_next, pick_loop, sched_pick_next,
}

-- What a visit tells of a process, and leaves of it.
abbrev Visited : Proc → Verdict × Proc × Counts → Type 0
Visited p (v, p', c) =
    (v ≡ skipped → p.state ≡ dead)
    × (is_ready p ≡ true → v ≡ picked)
    × (v ≡ picked → is_ready p' ≡ true)

visit-Visited : (counts : Counts) (t : ℕ) (p : Proc) → Visited p (visit counts t p)
unfolding visit ring_alarm wake_or_pass signal_send
visit-Visited counts t p = (λ e. ground arith, λ e. ground arith, λ e. ground arith)

-- How many places of a list of `n` come between place `i` and the next `j`, going round.
abbrev pub distance : ℕ → ℕ → ℕ → ℕ
distance n i j = if leb i j then j - i else n - i + j

abbrev pub first_place : Sched → ℕ
first_place s = next_place (length s.procs) s.last_element

distance-next :
    (n i j : ℕ)
    → i < n
    → j < n
    → i ≢ j
    → suc (distance n (next_place n (some i)) j) ≡ distance n i j
unfolding next_place
distance-next n i j hi hj ne = ground arith

pub next_place-lt : (n : ℕ) (last : Option ℕ) → 0 < n → next_place n last < n
unfolding next_place
next_place-lt n none h = h
next_place-lt n (some i) h = ground arith

-- The loop has chosen place `k`.
record Chosen (s' : Sched) (k : ℕ) : Type 0 where
  current : s'.current ≡ some k
  last : s'.last_element ≡ some k
  inside : k < length s'.procs
  chosen : (p : Proc) × (get_elem? s'.procs k ≡ some p) × (is_ready p ≡ true)

-- The loop, about to visit place `i`, ends with one at most as far from `i` as `j`, or at `j` with
-- the idle process, if that is allowed.
abbrev Ends : ℕ → Option ℕ → Bool → (i j : ℕ) → Pick → Type 0
Ends n first idle i j r =
    (s' : Sched) × (r ≡ done s')
    × (length s'.procs ≡ n)
    × (((k : ℕ) × Chosen s' k × (distance n i k ≤ distance n i j))
        ⊎ ((idle ≡ true) × (first ≡ some j) × (s'.current ≡ none) × (s'.last_element ≡ some j)))

-- The process at place `j` ends the loop when it is visited.
abbrev Stops : Option ℕ → Bool → List Proc → ℕ → Type 0
Stops first idle procs j =
    (p : Proc) × (get_elem? procs j ≡ some p)
    × ((is_ready p ≡ true) ⊎ ((idle ≡ true) × (first ≡ some j) × (p.state ≢ dead)))

module _ (n : ℕ) (first : Option ℕ) (idle : Bool) where
  Ends-later :
      (i j : ℕ) (r : Pick)
      → i < n
      → j < n
      → i ≢ j
      → Ends n first idle (next_place n (some i)) j r
      → Ends n first idle i j r
  Ends-later i j r hi hj ne (s', e, l, inr none_left) = (s', e, l, inr none_left)
  Ends-later i j r hi hj ne (s', e, l, inl (k, c, le)) = (
    s',
    e,
    l,
    inl (k, c, ground (arith, distance-next n i j hi hj ne, distance-next n i k hi, l, c.inside)),
  )

  abbrev Near : (i j : ℕ) → Type 0
  Near i j = (f : ℕ) → first ≡ some f → (f < n) × (distance n i j ≤ distance n i f)

  Near-next : (i j : ℕ) → i < n → j < n → i ≢ j → Near i j → Near (next_place n (some i)) j
  Near-next i j hi hj ne near f e =
      let (lt, le) = near f e in
      let away : i ≢ f = λ q. ne (ground (arith, q)) in
      (lt, omega (arith, distance-next n i j hi hj ne, distance-next n i f hi lt away))

  picked-Ends :
      (s : Sched) (i j : ℕ) (p' : Proc) (c : Counts)
      → length s.procs ≡ n
      → i < n
      → is_ready p' ≡ true
      → Ends n first idle i j (done (record (visited s i (p', c)) { current = some i }))
  picked-Ends s i j p' c e hi ready =
      let size = length-set s.procs i p' in
      let chosen : Chosen (record (visited s i (p', c)) { current = some i }) i = record {
        current = refl;
        last = refl;
        inside = omega (arith, size, e);
        chosen = (p', get_elem?-set_self s.procs i p' (omega (arith, e)), ready);
      } in
      (_, refl, size ∙ e, inl (i, chosen, ground arith))

  at_place-true : (i : ℕ) → at_place first i ≡ true → first ≡ some i
  at_place-true i h = ground arith

  -- One round at place `i`, not `j`: it ends the loop, or the loop goes on.
  round-Ends :
      (s : Sched) (i j : ℕ) (p : Proc) (v : Verdict) (p' : Proc) (c : Counts) (again : Pick)
      → length s.procs ≡ n
      → i < n
      → j < n
      → Near i j
      → Visited p (v, p', c)
      → i ≢ j
      → Ends n first idle (next_place n (some i)) j again
      → Ends n first idle i j (end_round first i (visited s i (p', c)) v again)
  unfolding end_round
  round-Ends s i j p skipped p' c again e hi hj near vis ne rest =
      Ends-later i j again hi hj ne rest
  round-Ends s i j p picked p' c again e hi hj near vis ne rest =
      picked-Ends s i j p' c e hi (vis.2 refl)
  round-Ends s i j p passed p' c again e hi hj near vis ne rest =
      elim (Bool-cases (at_place first i)) [
        | inl here ↦ let le = (near i (at_place-true i here)).1 in absurd (ne (ground (arith, le)))
        | inr away ↦ rw away (Ends-later i j again hi hj ne rest)
      ]

  -- The round at the place that ends the loop.
  stop-Ends :
      (s : Sched) (j : ℕ) (p : Proc) (v : Verdict) (p' : Proc) (c : Counts) (again : Pick)
      → length s.procs ≡ n
      → j < n
      → (is_ready p ≡ true) ⊎ ((idle ≡ true) × (first ≡ some j) × (p.state ≢ dead))
      → Visited p (v, p', c)
      → Ends n first idle j j (end_round first j (visited s j (p', c)) v again)
  unfolding end_round
  stop-Ends s j p skipped p' c again e hj (inl ready) (dies, takes, _) = absurd (cc (takes ready))
  stop-Ends s j p skipped p' c again e hj (inr (_, _, alive)) (dies, takes, _) =
      absurd (alive (dies refl))
  stop-Ends s j p picked p' c again e hj stop vis = picked-Ends s j j p' c e hj (vis.2 refl)
  stop-Ends s j p passed p' c again e hj (inl ready) (dies, takes, _) = absurd (cc (takes ready))
  stop-Ends s j p passed p' c again e hj (inr (ok, at, _)) vis =
      let here : at_place first j ≡ true = ground (arith, at) in
      rw here (_, refl, length-set s.procs j p' ∙ e, inr (ok, at, refl, refl))

  visit_next-at :
      (s : Sched) (i : ℕ) (p : Proc)
      → length s.procs ≡ n
      → next_place n s.last_element ≡ i
      → get_elem? s.procs i ≡ some p
      → visit_next s ≡ visit_proc s i (some p)
  unfolding visit_next
  visit_next-at s i p e at here =
      let at' : next_place (length s.procs) s.last_element ≡ i =
        ap (λ m. next_place m s.last_element) e ∙ at in
      rw at' (ap (visit_proc s i) here)

  pick_loop-step :
      (fuel : ℕ) (s : Sched) (i : ℕ) (p : Proc)
      → length s.procs ≡ n
      → next_place n s.last_element ≡ i
      → get_elem? s.procs i ≡ some p
      → (let (v, p', c) = visit s.counts s.sys_ticks p in
          pick_loop (suc fuel) first s
          ≡ end_round first i (visited s i (p', c)) v (pick_loop fuel first (visited s i (p', c))))
  unfolding pick_loop
  pick_loop-step fuel s i p e at here = rw (visit_next-at s i p e at here, pick_loop)

  -- The loop with one round to go, at a process that ends it or at another.
  pick_loop-here :
      (fuel : ℕ) (s : Sched) (i : ℕ)
      → length s.procs ≡ n
      → next_place n s.last_element ≡ i
      → i < n
      → Stops first idle s.procs i
      → Ends n first idle i i (pick_loop (suc fuel) first s)
  pick_loop-here fuel s i e at hi (p, here, why) =
      subst (Ends n first idle i i) (sym (pick_loop-step fuel s i p e at here))
        (stop-Ends s i p _ _ _ _ e hi why (visit-Visited s.counts s.sys_ticks p))

  pick_loop-away :
      (fuel : ℕ) (s : Sched) (i j : ℕ) (p : Proc)
      → length s.procs ≡ n
      → next_place n s.last_element ≡ i
      → get_elem? s.procs i ≡ some p
      → i < n
      → j < n
      → Near i j
      → i ≢ j
      → (let (v, p', c) = visit s.counts s.sys_ticks p in
          Ends n first idle (next_place n (some i)) j (pick_loop fuel first (visited s i (p', c))))
      → Ends n first idle i j (pick_loop (suc fuel) first s)
  pick_loop-away fuel s i j p e at here hi hj near ne rest =
      subst (Ends n first idle i j) (sym (pick_loop-step fuel s i p e at here))
        (round-Ends s i j p _ _ _ _ e hi hj near (visit-Visited s.counts s.sys_ticks p) ne rest)

  pick_loop-Ends :
      (fuel : ℕ) (s : Sched) (i j : ℕ)
      → length s.procs ≡ n
      → next_place n s.last_element ≡ i
      → i < n
      → j < n
      → Near i j
      → Stops first idle s.procs j
      → distance n i j < fuel
      → Ends n first idle i j (pick_loop fuel first s)
  pick_loop-Ends zero s i j e at hi hj near stops lt = absurd (omega arith)
  pick_loop-Ends (suc fuel) s i j e at hi hj near (p, here, why) lt = elim (ℕ_discrete i j) [
    | yes same ↦
        subst (λ x. Ends n first idle i x (pick_loop (suc fuel) first s)) same
          (pick_loop-here fuel s i e at hi
            (subst (Stops first idle s.procs) (sym same) (p, here, why)))
    | no ne ↦
        let (q, there) = get_elem?-lt s.procs i (omega (arith, e)) in
        let p' = (visit s.counts s.sys_ticks q).1 in
        pick_loop-away fuel s i j q e at there hi hj near ne (
          pick_loop-Ends fuel _ (next_place n (some i)) j (length-set s.procs i p' ∙ e) refl
            (next_place-lt n (some i) (omega arith)) hj (Near-next i j hi hj ne near)
            (p, get_elem?-set_ne s.procs i j p' ne ∙ here, why)
            (omega (arith, distance-next n i j hi hj ne)))
  ]

-- The list has a process, and `last_element` is none of it yet or a place of it.
pub record IsValid (s : Sched) : Type 0 where
  pub inside : (f : ℕ) → s.last_element ≡ some f → f < length s.procs

last-farthest :
    (n : ℕ) (last : Option ℕ) (j f : ℕ)
    → j < n
    → last ≡ some f
    → f < n
    → distance n (next_place n last) j ≤ distance n (next_place n last) f
unfolding next_place
last-farthest n last j f hj e hf = rw e (ground arith)

Near-start :
    (s : Sched) (j : ℕ)
    → IsValid s
    → j < length s.procs
    → Near (length s.procs) s.last_element false (first_place s) j
Near-start s j v hj f e =
    (v.inside f e, last-farthest (length s.procs) s.last_element j f hj e (v.inside f e))

distance-lt : (n i j : ℕ) → i < n → j < n → distance n i j < n
distance-lt n i j hi hj = ground arith

-- When a process is ready, the loop ends within one round of the list, and the chosen process is
-- ready and at most as far behind the last one as it, in the order of the list.
pub sched_pick_next_nearest :
    (s : Sched) (j : ℕ) (p : Proc) (fuel : ℕ)
    → IsValid s
    → get_elem? s.procs j ≡ some p
    → is_ready p ≡ true
    → length s.procs ≤ fuel
    → (s' : Sched) × (k : ℕ) × (q : Proc) × (sched_pick_next fuel s ≡ done s')
      × (s'.current ≡ some k)
      × (s'.last_element ≡ some k)
      × (get_elem? s'.procs k ≡ some q)
      × (is_ready q ≡ true)
      × (distance (length s.procs) (first_place s) k ≤ distance (length s.procs) (first_place s) j)
unfolding sched_pick_next
sched_pick_next_nearest s j p fuel v here ready enough =
    let n = length s.procs in
    let hj = lt-of_get_elem? s.procs j p here in
    let hi = next_place-lt n s.last_element (omega (arith, hj)) in
    nearest (
      pick_loop-Ends n s.last_element false fuel s (first_place s) j refl refl hi hj
        (Near-start s j v hj) (p, here, inl ready)
        (omega (arith, distance-lt n (first_place s) j hi hj)))
  where
    nearest :
        Ends
          (length s.procs)
          s.last_element
          false
          (first_place s)
          j
          (pick_loop fuel s.last_element s)
        → (s' : Sched) × (k : ℕ) × (q : Proc) × (pick_loop fuel s.last_element s ≡ done s')
          × (s'.current ≡ some k)
          × (s'.last_element ≡ some k)
          × (get_elem? s'.procs k ≡ some q)
          × (is_ready q ≡ true)
          × (distance (length s.procs) (first_place s) k
              ≤ distance (length s.procs) (first_place s) j)
    nearest (s', e, _, inl (k, c, le)) =
        (s', k, c.chosen.0, e, c.current, c.last, c.chosen.1, c.chosen.2, le)
    nearest (s', e, _, inr (no_idle, _, _, _)) = absurd (cc no_idle)

-- When the process that ran last is not dead, the loop ends within one round of the list, with a
-- ready process or, having passed every process, with the idle one.
pub sched_pick_next_returns :
    (s : Sched) (f : ℕ) (p : Proc) (fuel : ℕ)
    → s.last_element ≡ some f
    → get_elem? s.procs f ≡ some p
    → p.state ≢ dead
    → length s.procs ≤ fuel
    → (s' : Sched) × (sched_pick_next fuel s ≡ done s')
      × (((k : ℕ) × (q : Proc) × (s'.current ≡ some k)
            × (get_elem? s'.procs k ≡ some q)
            × (is_ready q ≡ true))
          ⊎ ((s'.current ≡ none) × (s'.last_element ≡ some f)))
unfolding sched_pick_next
sched_pick_next_returns s f p fuel last here alive enough =
    let n = length s.procs in
    let hf = lt-of_get_elem? s.procs f p here in
    let hi = next_place-lt n s.last_element (omega (arith, hf)) in
    let valid : IsValid s = record {
      inside = λ g e. subst (λ x. x < n) (some_eq (sym last ∙ e)) hf;
    } in
    returns (
      pick_loop-Ends n s.last_element true fuel s (first_place s) f refl refl hi hf
        (Near-start s f valid hf) (p, here, inr (refl, last, alive))
        (omega (arith, distance-lt n (first_place s) f hi hf)))
  where
    some_eq : {a b : ℕ} → some a ≡ some b → a ≡ b
    some_eq e = cc

    returns :
        Ends
          (length s.procs)
          s.last_element
          true
          (first_place s)
          f
          (pick_loop fuel s.last_element s)
        → (s' : Sched) × (pick_loop fuel s.last_element s ≡ done s')
          × (((k : ℕ) × (q : Proc) × (s'.current ≡ some k)
                × (get_elem? s'.procs k ≡ some q)
                × (is_ready q ≡ true))
              ⊎ ((s'.current ≡ none) × (s'.last_element ≡ some f)))
    returns (s', e, _, inl (k, c, le)) =
        (s', e, inl (k, c.chosen.0, c.current, c.chosen.1, c.chosen.2))
    returns (s', e, _, inr (_, _, idle, at)) = (s', e, inr (idle, at))
