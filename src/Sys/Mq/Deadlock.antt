-- ===== src/Sys/Mq/Deadlock.antt =====
-- A call that does not block takes a message, and then waits for `data_available` with the lock held.
use pi_os.Common.{ℕ, ◌≡◌, Option, none, some, List, [], ◌∷◌}
use pi_os.Sys.Mq.{MqMsg, MqEntry, Thread, push_locks, pop_locks, try_waits, waits, step, System}

-- A queue with one message, all of whose threads are out of its lock.
abbrev pub one_message : ℕ → MqMsg → MqEntry
one_message id m = record { id = id; mq = m ∷ []; len = 1; lock = 1; data_available = 1 }

-- Threads that are about to push.
abbrev pub pushers : List MqMsg → List Thread
pushers [] = []
pushers (x ∷ xs) = push_locks x ∷ pushers xs

abbrev drained : ℕ → MqEntry
drained id = record { id = id; mq = []; len = 1; lock = 0; data_available = 0 }

abbrev jammed : ℕ → MqMsg → List MqMsg → System
jammed id m xs = record { entry = drained id; threads = pop_locks ∷ try_waits m ∷ pushers xs }

abbrev Waits : MqEntry → Option Thread → Type 0
Waits e none = Unit {0}
Waits e (some t) = step e t ≡ waits
