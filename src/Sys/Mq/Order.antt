-- ===== src/Sys/Mq/Order.antt =====
-- The order in which the messages of a queue come out.
use pi_os.Common.{
  ◌≡◌, refl, sym, ap, ◌∙◌, subst, List, [], ◌∷◌, ◌++◌, append-nil, append_assoc, Bool-cases, ◌==◌,
  inl, inr,
}
use pi_os.Libk.Semaphore.{Down, panics, sleeps, takes}
use pi_os.Sys.Mq.{
  MqMsg, MqEntry, Thread, push_locks, push_appends, push_signals, push_counts, push_unlocks,
  pop_waits, pop_locks, pop_takes, pop_counts, pop_unlocks, try_locks, try_tests, try_gives_up,
  try_takes, try_waits, try_counts, try_unlocks, returned, Outcome, goes, waits, asserts, faults,
  down_lock, down_data, take_first, step, System, Step, turn, Reach, here, next,
}

-- What a step of a thread appends to the queue.
abbrev pub pushes : Thread → List MqMsg
pushes (push_appends m) = m ∷ []
pushes (push_locks m) = []
pushes (push_signals m) = []
pushes (push_counts m) = []
pushes (push_unlocks m) = []
pushes pop_waits = []
pushes pop_locks = []
pushes pop_takes = []
pushes (pop_counts m) = []
pushes (pop_unlocks m) = []
pushes try_locks = []
pushes try_tests = []
pushes try_gives_up = []
pushes try_takes = []
pushes (try_waits m) = []
pushes (try_counts m) = []
pushes (try_unlocks m) = []
pushes (returned m) = []

-- The message in the hands of a thread that has just taken it.
abbrev just_popped : Thread → List MqMsg
just_popped (pop_counts m) = m ∷ []
just_popped (try_waits m) = m ∷ []
just_popped (push_locks m) = []
just_popped (push_appends m) = []
just_popped (push_signals m) = []
just_popped (push_counts m) = []
just_popped (push_unlocks m) = []
just_popped pop_waits = []
just_popped pop_locks = []
just_popped pop_takes = []
just_popped (pop_unlocks m) = []
just_popped try_locks = []
just_popped try_tests = []
just_popped try_gives_up = []
just_popped try_takes = []
just_popped (try_counts m) = []
just_popped (try_unlocks m) = []
just_popped (returned m) = []

-- What a step from `t` to `t'` takes out of the queue.
abbrev pub pops : (t t' : Thread) → List MqMsg
pops pop_takes t' = just_popped t'
pops try_takes t' = just_popped t'
pops (push_locks m) t' = []
pops (push_appends m) t' = []
pops (push_signals m) t' = []
pops (push_counts m) t' = []
pops (push_unlocks m) t' = []
pops pop_waits t' = []
pops pop_locks t' = []
pops (pop_counts m) t' = []
pops (pop_unlocks m) t' = []
pops try_locks t' = []
pops try_tests t' = []
pops try_gives_up t' = []
pops (try_waits m) t' = []
pops (try_counts m) t' = []
pops (try_unlocks m) t' = []
pops (returned m) t' = []

abbrev pub pushed_by : {s s' : System} → Step s s' → List MqMsg
pushed_by (turn i t {e} {t'} at goes_on) = pushes t

abbrev pub popped_by : {s s' : System} → Step s s' → List MqMsg
popped_by (turn i t {e} {t'} at goes_on) = pops t t'

-- The messages that a run appends to the queue, and those that it takes out, in order.
abbrev pub all_pushed : {s s' : System} → Reach s s' → List MqMsg
all_pushed here = []
all_pushed (next r st) = all_pushed r ++ pushed_by st

abbrev pub all_popped : {s s' : System} → Reach s s' → List MqMsg
all_popped here = []
all_popped (next r st) = all_popped r ++ popped_by st

abbrev Moves : MqEntry → Thread → Outcome → Type 0
Moves e t (goes e' t') = e.mq ++ pushes t ≡ pops t t' ++ e'.mq
Moves e t waits = Unit {0}
Moves e t asserts = Unit {0}
Moves e t faults = Unit {0}

down_lock-Moves :
    (e : MqEntry) (t t' : Thread) (d : Down)
    → e.mq ++ pushes t ≡ pops t t' ++ e.mq
    → Moves e t (down_lock e t' d)
down_lock-Moves e t t' panics h = tt
down_lock-Moves e t t' sleeps h = tt
down_lock-Moves e t t' (takes left) h = h

down_data-Moves :
    (e : MqEntry) (t t' : Thread) (d : Down)
    → e.mq ++ pushes t ≡ pops t t' ++ e.mq
    → Moves e t (down_data e t' d)
down_data-Moves e t t' panics h = tt
down_data-Moves e t t' sleeps h = tt
down_data-Moves e t t' (takes left) h = h

pop_takes-Moves :
    (e : MqEntry) (mq : List MqMsg) → e.mq ≡ mq → Moves e pop_takes (take_first e pop_counts mq)
pop_takes-Moves e [] is = tt
pop_takes-Moves e (m ∷ mq) is = append-nil e.mq ∙ is

try_takes-Moves :
    (e : MqEntry) (mq : List MqMsg) → e.mq ≡ mq → Moves e try_takes (take_first e try_waits mq)
try_takes-Moves e [] is = tt
try_takes-Moves e (m ∷ mq) is = append-nil e.mq ∙ is

step-Moves : (e : MqEntry) (t : Thread) → Moves e t (step e t)
unfolding step
step-Moves e (push_locks m) = down_lock-Moves e (push_locks m) _ _ (append-nil e.mq)
step-Moves e (push_appends m) = refl
step-Moves e (push_signals m) = append-nil e.mq
step-Moves e (push_counts m) = append-nil e.mq
step-Moves e (push_unlocks m) = append-nil e.mq
step-Moves e pop_waits = down_data-Moves e pop_waits _ _ (append-nil e.mq)
step-Moves e pop_locks = down_lock-Moves e pop_locks _ _ (append-nil e.mq)
step-Moves e pop_takes = pop_takes-Moves e e.mq refl
step-Moves e (pop_counts m) = append-nil e.mq
step-Moves e (pop_unlocks m) = append-nil e.mq
step-Moves e try_locks = down_lock-Moves e try_locks _ _ (append-nil e.mq)
step-Moves e try_tests = elim (Bool-cases (e.len == 0)) [
  | inl empty ↦ rw empty (append-nil e.mq)
  | inr more ↦ rw more (append-nil e.mq)
]
step-Moves e try_gives_up = append-nil e.mq
step-Moves e try_takes = try_takes-Moves e e.mq refl
step-Moves e (try_waits m) = down_data-Moves e (try_waits m) _ _ (append-nil e.mq)
step-Moves e (try_counts m) = append-nil e.mq
step-Moves e (try_unlocks m) = append-nil e.mq
step-Moves e (returned m) = tt

Step-Moves :
    {s s' : System} (st : Step s s') → s.entry.mq ++ pushed_by st ≡ popped_by st ++ s'.entry.mq
Step-Moves {s} (turn i t {e} {t'} at goes_on) =
    subst (Moves s.entry t) goes_on (step-Moves s.entry t)

-- The queue is first in, first out, in whatever order the threads of all three calls take turns:
-- what was in it and then the messages that were appended are the messages that were taken out and
-- then what is in it now, each in order.
pub Reach-fifo :
    {s s' : System} (r : Reach s s') → s.entry.mq ++ all_pushed r ≡ all_popped r ++ s'.entry.mq
Reach-fifo {s} here = append-nil s.entry.mq
Reach-fifo {s} (next {t} {u} r st) =
    sym (append_assoc s.entry.mq (all_pushed r) (pushed_by st))
    ∙ ap (λ q. q ++ pushed_by st) (Reach-fifo r)
    ∙ append_assoc (all_popped r) t.entry.mq (pushed_by st)
    ∙ ap (λ q. all_popped r ++ q) (Step-Moves st)
    ∙ sym (append_assoc (all_popped r) (popped_by st) u.entry.mq)
