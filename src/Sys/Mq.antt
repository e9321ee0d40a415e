-- ===== src/Sys/Mq.antt =====
-- kernel/sys/mq.c: message queues, and the threads that push and pop.
-- A thread may be switched at any step: a step is an operation on a semaphore or on the fields of the
-- queue. The `struct list` of a queue is the list of its messages, in order.
pub mod Counts
pub mod Invariant
pub mod Supply
pub mod Order
pub mod Deadlock
mod Tests
use pi_os.Common.{
  ℕ, ◌≡◌, Option, none, some, List, [], ◌∷◌, ◌++◌, ◌==◌, if◌then◌else◌, get_elem?, set,
}
use pi_os.Common.Word.{add16, sub16}
use pi_os.Libk.Semaphore.{semaphore_init, semaphore_up, semaphore_down, Down, panics, sleeps, takes}

-- `struct mq_msg`
pub record MqMsg : Type 0 where
  pub id : ℕ
  pub kind : ℕ
  pub size : ℕ
  pub data_ptr : ℕ

-- `struct mq_entry`
pub record MqEntry : Type 0 where
  pub id : ℕ
  pub mq : List MqMsg
  pub len : ℕ
  pub lock : ℕ
  pub data_available : ℕ

-- `mqs`, `mq_id` and `mq_msg_id`
pub record Mqs : Type 0 where
  pub entries : List MqEntry
  pub mq_id : ℕ
  pub mq_msg_id : ℕ

unfoldable pub mqs_create : Mqs → ℕ × Mqs
mqs_create s =
    let entry : MqEntry = record {
      id = add16 s.mq_id 1;
      mq = [];
      len = 0;
      lock = semaphore_up semaphore_init;
      data_available = semaphore_init;
    } in
    (add16 s.mq_id 1, record s { entries = s.entries ++ (entry ∷ []); mq_id = add16 s.mq_id 1 })

unfoldable pub find_mq : List MqEntry → ℕ → Option MqEntry
find_mq [] id = none
find_mq (entry ∷ entries) id = if entry.id == id then some entry else find_mq entries id

-- Where a thread is in `mq_push`, `mq_pop` or `mq_pop_nonblock`: what it does next.
pub data Thread : Type 0 where
  -- `mq_push` from `semaphore_down(&mqe->lock)` on
  push_locks : MqMsg → Thread
  push_appends : MqMsg → Thread
  push_signals : MqMsg → Thread
  push_counts : MqMsg → Thread
  push_unlocks : MqMsg → Thread
  -- `mq_pop` from `semaphore_down(&mqe->data_available)` on
  pop_waits : Thread
  pop_locks : Thread
  pop_takes : Thread
  pop_counts : MqMsg → Thread
  pop_unlocks : MqMsg → Thread
  -- `mq_pop_nonblock` from `semaphore_down(&mqe->lock)` on
  try_locks : Thread
  try_tests : Thread
  try_gives_up : Thread
  try_takes : Thread
  try_waits : MqMsg → Thread
  try_counts : MqMsg → Thread
  try_unlocks : MqMsg → Thread
  -- out of the call, with the message that was pushed or popped
  returned : Option MqMsg → Thread

-- What becomes of a step.
pub data Outcome : Type 0 where
  goes : MqEntry → Thread → Outcome
  -- asleep on a semaphore, or out of the call
  waits : Outcome
  -- an `ASSERT` of a semaphore fails
  asserts : Outcome
  -- `mqe->mq.first` is `NULL`
  faults : Outcome

-- The call up to its first semaphore: `none` is the return for an unknown queue.
abbrev pub enter : Thread → Option MqEntry → Option Thread
enter thread none = none
enter thread (some entry) = some thread

unfoldable pub mq_push : Mqs → ℕ → MqMsg → Option Thread × Mqs
mq_push s mq_id msg =
    let id = add16 s.mq_msg_id 1 in
    elim (find_mq s.entries mq_id) [
      | none ↦ (none, s)
      | some _ ↦ (some (push_locks (record msg { id = id })), record s { mq_msg_id = id })
    ]

unfoldable pub mq_pop : Mqs → ℕ → Option Thread
mq_pop s mq_id = enter pop_waits (find_mq s.entries mq_id)

unfoldable pub mq_pop_nonblock : Mqs → ℕ → Option Thread
mq_pop_nonblock s mq_id = enter try_locks (find_mq s.entries mq_id)

abbrev pub down_lock : MqEntry → Thread → Down → Outcome
down_lock e thread panics = asserts
down_lock e thread sleeps = waits
down_lock e thread (takes count) = goes (record e { lock = count }) thread

abbrev pub down_data : MqEntry → Thread → Down → Outcome
down_data e thread panics = asserts
down_data e thread sleeps = waits
down_data e thread (takes count) = goes (record e { data_available = count }) thread

abbrev pub up_lock : MqEntry → MqEntry
up_lock e = record e { lock = semaphore_up e.lock }

-- `m = mqe->mq.first->val`, and its removal
abbrev pub take_first : MqEntry → (MqMsg → Thread) → List MqMsg → Outcome
take_first e thread [] = faults
take_first e thread (m ∷ mq) = goes (record e { mq = mq }) (thread m)

unfoldable pub step : MqEntry → Thread → Outcome
step e (push_locks msg) = down_lock e (push_appends msg) (semaphore_down e.lock)
step e (push_appends msg) = goes (record e { mq = e.mq ++ (msg ∷ []) }) (push_signals msg)
step e (push_signals msg) =
    goes (record e { data_available = semaphore_up e.data_available }) (push_counts msg)
step e (push_counts msg) = goes (record e { len = add16 e.len 1 }) (push_unlocks msg)
step e (push_unlocks msg) = goes (up_lock e) (returned (some msg))
step e pop_waits = down_data e pop_locks (semaphore_down e.data_available)
step e pop_locks = down_lock e pop_takes (semaphore_down e.lock)
step e pop_takes = take_first e pop_counts e.mq
step e (pop_counts m) = goes (record e { len = sub16 e.len 1 }) (pop_unlocks m)
step e (pop_unlocks m) = goes (up_lock e) (returned (some m))
step e try_locks = down_lock e try_tests (semaphore_down e.lock)
step e try_tests = if e.len == 0 then goes e try_gives_up else goes e try_takes
step e try_gives_up = goes (up_lock e) (returned none)
step e try_takes = take_first e try_waits e.mq
step e (try_waits m) = down_data e (try_counts m) (semaphore_down e.data_available)
step e (try_counts m) = goes (record e { len = sub16 e.len 1 }) (try_unlocks m)
step e (try_unlocks m) = goes (up_lock e) (returned (some m))
step e (returned m) = waits

-- One queue and the threads in calls on it.
pub record System : Type 0 where
  pub entry : MqEntry
  pub threads : List Thread

-- A step of one thread, in any order.
pub data Step (s : System) : System → Type 0 where
  turn :
      (i : ℕ) (t : Thread) {e : MqEntry} {t' : Thread}
      → get_elem? s.threads i ≡ some t
      → step s.entry t ≡ goes e t'
      → Step s (record { entry = e; threads = set s.threads i t' })

pub data Reach (s : System) : System → Type 0 where
  here : Reach s s
  next : {t u : System} → Reach s t → Step t u → Reach s u
