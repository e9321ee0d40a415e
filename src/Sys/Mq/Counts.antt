-- ===== src/Sys/Mq/Counts.antt =====
-- Sums over the threads of a queue, and how many of them are at which place of their call.
use pi_os.Common.{ℕ, zero, suc, ◌+◌, ◌≡◌, arith, some, List, [], ◌∷◌, get_elem?, set}
use pi_os.Sys.Mq.{
  Thread, push_locks, push_appends, push_signals, push_counts, push_unlocks, pop_waits, pop_locks,
  pop_takes, pop_counts, pop_unlocks, try_locks, try_tests, try_gives_up, try_takes, try_waits,
  try_counts, try_unlocks, returned,
}

abbrev pub total : (Thread → ℕ) → List Thread → ℕ
total f [] = 0
total f (t ∷ ts) = f t + total f ts

-- What the other threads sum up to.
pub total-split :
    (f : Thread → ℕ) (ts : List Thread) (i : ℕ) (t : Thread)
    → get_elem? ts i ≡ some t
    → (k : ℕ) × (total f ts ≡ f t + k) × ((t' : Thread) → total f (set ts i t') ≡ f t' + k)
total-split f [] i t h = absurd (cc h)
total-split f (x ∷ ts) zero t h = (total f ts, ground (arith, h), λ t'. omega arith)
total-split f (x ∷ ts) (suc i) t h =
    let (k, e, after) = total-split f ts i t h in
    (f x + k, omega (arith, e), λ t'. omega (arith, after t'))

-- Between the `semaphore_down` and the `semaphore_up` of the lock.
abbrev pub critical : Thread → ℕ
critical (push_locks m) = 0
critical (push_appends m) = 1
critical (push_signals m) = 1
critical (push_counts m) = 1
critical (push_unlocks m) = 1
critical pop_waits = 0
critical pop_locks = 0
critical pop_takes = 1
critical (pop_counts m) = 1
critical (pop_unlocks m) = 1
critical try_locks = 0
critical try_tests = 1
critical try_gives_up = 1
critical try_takes = 1
critical (try_waits m) = 1
critical (try_counts m) = 1
critical (try_unlocks m) = 1
critical (returned m) = 0

-- A message is promised to the thread, or appended by it and not yet signalled.
abbrev pub promised : Thread → ℕ
promised (push_locks m) = 0
promised (push_appends m) = 0
promised (push_signals m) = 1
promised (push_counts m) = 0
promised (push_unlocks m) = 0
promised pop_waits = 0
promised pop_locks = 1
promised pop_takes = 1
promised (pop_counts m) = 0
promised (pop_unlocks m) = 0
promised try_locks = 0
promised try_tests = 0
promised try_gives_up = 0
promised try_takes = 0
promised (try_waits m) = 0
promised (try_counts m) = 0
promised (try_unlocks m) = 0
promised (returned m) = 0

-- In a call of `mq_pop_nonblock`.
abbrev pub tries : Thread → ℕ
tries (push_locks m) = 0
tries (push_appends m) = 0
tries (push_signals m) = 0
tries (push_counts m) = 0
tries (push_unlocks m) = 0
tries pop_waits = 0
tries pop_locks = 0
tries pop_takes = 0
tries (pop_counts m) = 0
tries (pop_unlocks m) = 0
tries try_locks = 1
tries try_tests = 1
tries try_gives_up = 1
tries try_takes = 1
tries (try_waits m) = 1
tries (try_counts m) = 1
tries (try_unlocks m) = 1
tries (returned m) = 0

-- A message that the thread appended and `len` does not count yet.
abbrev pub uncounted : Thread → ℕ
uncounted (push_signals m) = 1
uncounted (push_counts m) = 1
uncounted (push_locks m) = 0
uncounted (push_appends m) = 0
uncounted (push_unlocks m) = 0
uncounted pop_waits = 0
uncounted pop_locks = 0
uncounted pop_takes = 0
uncounted (pop_counts m) = 0
uncounted (pop_unlocks m) = 0
uncounted try_locks = 0
uncounted try_tests = 0
uncounted try_gives_up = 0
uncounted try_takes = 0
uncounted (try_waits m) = 0
uncounted (try_counts m) = 0
uncounted (try_unlocks m) = 0
uncounted (returned m) = 0

-- A message that the thread took out and `len` still counts.
abbrev pub taken : Thread → ℕ
taken (pop_counts m) = 1
taken (try_waits m) = 1
taken (try_counts m) = 1
taken (push_locks m) = 0
taken (push_appends m) = 0
taken (push_signals m) = 0
taken (push_counts m) = 0
taken (push_unlocks m) = 0
taken pop_waits = 0
taken pop_locks = 0
taken pop_takes = 0
taken (pop_unlocks m) = 0
taken try_locks = 0
taken try_tests = 0
taken try_gives_up = 0
taken try_takes = 0
taken (try_unlocks m) = 0
taken (returned m) = 0
