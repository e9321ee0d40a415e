-- ===== src/Sys/Mq/Invariant.antt =====
-- What holds of a queue whatever the order of the threads' steps.
use pi_os.Common.{ℕ, ◌+◌, ◌≡◌, refl, subst, arith, inl, inr, List, [], ◌∷◌, Bool-cases, ◌==◌}
use pi_os.Libk.Semaphore.{semaphore_up, semaphore_down, Down, panics, sleeps, takes}
use pi_os.Sys.Mq.{
  MqMsg, MqEntry, Thread, push_locks, push_appends, push_signals, push_counts, push_unlocks,
  pop_waits, pop_locks, pop_takes, pop_counts, pop_unlocks, try_locks, try_tests, try_gives_up,
  try_takes, try_waits, try_counts, try_unlocks, returned, Outcome, goes, waits, asserts, faults,
  down_lock, down_data, take_first, step, System, Step, turn, Reach, here, next,
}
use pi_os.Sys.Mq.Counts.{total, total-split, critical}

-- The lock and one thread, `c` other threads being between lock and unlock.
abbrev LockLocal : ℕ → MqEntry → Thread → Type 0
LockLocal c e t = e.lock + critical t + c ≡ 1

abbrev AfterLock : ℕ → Outcome → Type 0
AfterLock c (goes e t) = LockLocal c e t
AfterLock c waits = Unit {0}
AfterLock c asserts = Unit {0}
AfterLock c faults = Unit {0}

abbrev pub Downs : ℕ → Down → Type 0
Downs count panics = Unit {0}
Downs count sleeps = count ≡ 0
Downs count (takes left) = (left + 1 ≡ count)

pub semaphore_down-Downs : (count : ℕ) → Downs count (semaphore_down count)
unfolding semaphore_down
semaphore_down-Downs count = ground arith

down_lock-AfterLock :
    (c : ℕ) (e : MqEntry) (t : Thread) (d : Down)
    → critical t ≡ 1
    → e.lock + c ≡ 1
    → Downs e.lock d
    → AfterLock c (down_lock e t d)
down_lock-AfterLock c e t panics h l d = tt
down_lock-AfterLock c e t sleeps h l d = tt
down_lock-AfterLock c e t (takes left) h l d = omega (arith, h, l, d)

down_data-AfterLock :
    (c : ℕ) (e : MqEntry) (t : Thread) (d : Down) → LockLocal c e t → AfterLock c (down_data e t d)
down_data-AfterLock c e t panics h = tt
down_data-AfterLock c e t sleeps h = tt
down_data-AfterLock c e t (takes left) h = h

take_first-AfterLock :
    (c : ℕ) (e : MqEntry) (t : MqMsg → Thread) (mq : List MqMsg)
    → ((m : MqMsg) → LockLocal c e (t m))
    → AfterLock c (take_first e t mq)
take_first-AfterLock c e t [] h = tt
take_first-AfterLock c e t (m ∷ mq) h = h m

unlock-LockLocal : (c l : ℕ) → l + 1 + c ≡ 1 → semaphore_up l + 0 + c ≡ 1
unlock-LockLocal c l h = ground arith

step-AfterLock : (c : ℕ) (e : MqEntry) (t : Thread) → LockLocal c e t → AfterLock c (step e t)
unfolding step
step-AfterLock c e (push_locks m) h =
    down_lock-AfterLock c e _ _ refl (omega (arith, h)) (semaphore_down-Downs e.lock)
step-AfterLock c e (push_appends m) h = h
step-AfterLock c e (push_signals m) h = h
step-AfterLock c e (push_counts m) h = h
step-AfterLock c e (push_unlocks m) h = unlock-LockLocal c e.lock h
step-AfterLock c e pop_waits h = down_data-AfterLock c e _ _ h
step-AfterLock c e pop_locks h =
    down_lock-AfterLock c e _ _ refl (omega (arith, h)) (semaphore_down-Downs e.lock)
step-AfterLock c e pop_takes h = take_first-AfterLock c e pop_counts e.mq (λ m. h)
step-AfterLock c e (pop_counts m) h = h
step-AfterLock c e (pop_unlocks m) h = unlock-LockLocal c e.lock h
step-AfterLock c e try_locks h =
    down_lock-AfterLock c e _ _ refl (omega (arith, h)) (semaphore_down-Downs e.lock)
step-AfterLock c e try_tests h = elim (Bool-cases (e.len == 0)) [
  | inl empty ↦ rw empty h
  | inr more ↦ rw more h
]
step-AfterLock c e try_gives_up h = unlock-LockLocal c e.lock h
step-AfterLock c e try_takes h = take_first-AfterLock c e try_waits e.mq (λ m. h)
step-AfterLock c e (try_waits m) h = down_data-AfterLock c e _ _ h
step-AfterLock c e (try_counts m) h = h
step-AfterLock c e (try_unlocks m) h = unlock-LockLocal c e.lock h
step-AfterLock c e (returned m) h = tt

abbrev pub IsLocked : System → Type 0
IsLocked s = s.entry.lock + total critical s.threads ≡ 1

Step-IsLocked : {s s' : System} → Step s s' → IsLocked s → IsLocked s'
Step-IsLocked {s} (turn i t {e} {t'} at goes_on) h =
    let (c, now, after) = total-split critical s.threads i t at in
    let local : LockLocal c e t' =
      subst (AfterLock c) goes_on (step-AfterLock c s.entry t (omega (arith, h, now))) in
    omega (arith, local, after t')

-- However the threads take turns, at most one is between the lock and the unlock of the queue, and
-- the lock is down just then.
pub Reach-IsLocked : {s s' : System} → Reach s s' → IsLocked s → IsLocked s'
Reach-IsLocked here h = h
Reach-IsLocked (next r st) h = Step-IsLocked st (Reach-IsLocked r h)
