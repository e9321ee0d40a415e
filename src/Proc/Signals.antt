-- ===== src/Proc/Signals.antt =====
-- kernel/proc/signal.c: the queue of pending signals.
use pi_os.Common.{ℕ, ◌+◌, Option, none, some, List, [], ◌∷◌, ◌++◌, ◌==◌, if◌then◌else◌, set}
use pi_os.Libk.Semaphore.{Counts, up_at}
use pi_os.Proc.{Signal, Proc}

abbrev pub sig_type_control : ℕ
sig_type_control = 1

abbrev pub sig_type_alarm : ℕ
sig_type_alarm = 2

abbrev pub sig_control_chld : ℕ
sig_control_chld = 1

unfoldable pub signal_send : Counts → Proc → Signal → Proc × Counts
signal_send counts proc signal = (
  record proc { signal_queue = proc.signal_queue ++ (signal ∷ []) },
  up_at counts proc.signal_sema,
)

abbrev pub one_later : Option (ℕ × Proc) → Option (ℕ × Proc)
one_later none = none
one_later (some (i, q)) = some (i + 1, q)

-- `proc_by_pid` of sched.c: the place of the first process of the list with the pid.
unfoldable pub proc_by_pid : List Proc → ℕ → Option (ℕ × Proc)
proc_by_pid [] pid = none
proc_by_pid (p ∷ procs) pid =
    if p.pid == pid then some (0, p) else one_later (proc_by_pid procs pid)

abbrev pub send_chld : Counts → List Proc → Option (ℕ × Proc) → List Proc × Counts
send_chld counts procs none = (procs, counts)
send_chld counts procs (some (i, pp)) =
    let (pp', counts') =
      signal_send counts pp (record { kind = sig_type_control; number = sig_control_chld }) in
    (set procs i pp', counts')

-- The parent that gets the signal is that of the current process.
unfoldable pub signal_send_sigchld : Counts → List Proc → (current chld : Proc) → List Proc × Counts
signal_send_sigchld counts procs current chld =
    if chld.parent == 0
    then (procs, counts)
    else send_chld counts procs (proc_by_pid procs current.parent)
