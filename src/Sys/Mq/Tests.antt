-- ===== src/Sys/Mq/Tests.antt =====
-- mq.c with one queue and a few threads.
use pi_os.Common.{◌≡◌, ◌≢◌, refl, arith, some, [], ◌∷◌, ◌++◌}
use pi_os.Libk.Semaphore.{semaphore_down}
use pi_os.Sys.Mq.{
  MqMsg, push_locks, push_appends, push_signals, push_counts, push_unlocks, pop_waits, pop_locks,
  pop_takes, returned, faults, mqs_create, step, System, turn, Reach, here, next,
}
use pi_os.Sys.Mq.Invariant.{IsLocked, Reach-IsLocked}
use pi_os.Sys.Mq.Supply.{IsSupplied, Reach-IsSupplied, Reach-ne_faults}
use pi_os.Sys.Mq.Order.{all_pushed, all_popped, Reach-fifo}
use pi_os.Sys.Mq.Deadlock.{one_message}

abbrev hello : MqMsg
hello = record { id = 1; kind = 7; size = 5; data_ptr = 0xB000 }

abbrev world : MqMsg
world = record { id = 2; kind = 7; size = 6; data_ptr = 0xB100 }

-- One message in the queue, a thread that pushes another and a thread that pops.
abbrev both : System
both = record { entry = one_message 1 hello; threads = push_locks world ∷ pop_waits ∷ [] }

abbrev between : System
between = record {
  entry = record { id = 1; mq = hello ∷ world ∷ []; len = 1; lock = 0; data_available = 1 };
  threads = push_counts world ∷ pop_locks ∷ [];
}

abbrev popping : System
popping = record {
  entry = record { id = 1; mq = hello ∷ world ∷ []; len = 2; lock = 0; data_available = 1 };
  threads = returned (some world) ∷ pop_takes ∷ [];
}

both-between : Reach both between
unfolding step semaphore_down
both-between =
    next
      (next (next (next here (turn 0 (push_locks world) refl refl)) (turn 1 pop_waits refl refl))
        (turn 0 (push_appends world) refl refl))
      (turn 0 (push_signals world) refl refl)

both-popping : Reach both popping
unfolding step semaphore_down
both-popping =
    next
      (next (next both-between (turn 0 (push_counts world) refl refl))
        (turn 0 (push_unlocks world) refl refl))
      (turn 1 pop_locks refl refl)

both-IsSupplied : IsSupplied both
both-IsSupplied = record {
  owed = omega arith;
  available = refl;
  small = omega arith;
  counted = refl;
  blocking = refl;
}

second_queue :
    (mqs_create (record { entries = one_message 1 hello ∷ []; mq_id = 1; mq_msg_id = 1 })).0 ≡ 2
unfolding mqs_create
second_queue = refl

Reach-IsLocked_example : IsLocked popping
Reach-IsLocked_example = Reach-IsLocked both-popping refl

Reach-IsSupplied_example : IsSupplied popping
Reach-IsSupplied_example = Reach-IsSupplied both-popping both-IsSupplied

Reach-ne_faults_example : step popping.entry pop_takes ≢ faults
Reach-ne_faults_example = Reach-ne_faults 1 pop_takes both-popping both-IsSupplied refl

Reach-fifo_example :
    hello ∷ [] ++ all_pushed both-popping ≡ all_popped both-popping ++ (hello ∷ world ∷ [])
Reach-fifo_example = Reach-fifo both-popping
