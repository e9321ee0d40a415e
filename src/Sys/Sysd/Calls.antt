-- ===== src/Sys/Sysd/Calls.antt =====
-- kernel/sys/sysd.c: single system calls, and what they change outside their process.
use pi_os.Common.{
  ℕ, refl, Bool, true, false, ◌||◌, ◌&&◌, not, Bool-cases, inl, inr, Option, none, some,
  Option-cases, List, [], ◌∷◌, get_elem?, ◌==◌, leb, get_or, take,
}
use pi_os.Common.Word.{add16, is_neg16, slt16}
use pi_os.Libk.Semaphore.{Down, panics, sleeps, takes, semaphore_down}
use pi_os.Fs.{ProcFile}
use pi_os.Fs.Files.{proc_free_fd}
use pi_os.Fs.Requests.{CallResult, returns, sleeps_on, sleeps_in_driver, fails}
use pi_os.Proc.{Proc, Signal}
use pi_os.Proc.Handler.{signal_handler_return, bytes_of, signal_words}
use pi_os.Libk.Semaphore.{Counts}
use pi_os.Sys.Mq.{Thread, Mqs}
use pi_os.Sys.Sysd.{Drivers, Kernel, Call, reg, put, ends}
use pi_os.Sys.Sysd.Files.{
  f_flags, f_driver_custom_start, sys_open, open_fd, sys_close, sys_read, read_vnode, read_returns,
  sys_write, write_vnode, write_returns, sys_fcntl, with_vnode,
}
use pi_os.Sys.Sysd.Processes.{
  proc_info, sys_procinfo, tell_info, sys_pgmap, sys_sighdlrret, handler_returned, sys_sigwait,
  sema_down, take_signal,
}
use pi_os.Sys.Sysd.Messages.{sys_mqcreat, sys_mqsend, pushed, sys_mqrecv, enters}
use pi_os.Sys.Sysd.Isolation.{
  Isolated, IsolatedCall, unchanged, kept, put-Isolated, store-Isolated, with_file-Isolated,
}

module _ {S : Type 0} (drivers : Drivers S) (k : Kernel S) (p : Proc) where
  -- A result that only writes the process, after changes to the other variables of the kernel.
  ends_put : (q : Proc) → IsolatedCall k p (ends (put k q))
  ends_put q = put-Isolated k p k q (unchanged k p)

  -- The state of the kernel when a driver is done
  after_request : (id : ℕ) (s : S) → Isolated k p (record k { last_req_id = id; driver_state = s })
  after_request id s = kept k p (record k { last_req_id = id; driver_state = s }) refl refl refl

  pub sys_open-Isolated : IsolatedCall k p (sys_open drivers k p)
  unfolding sys_open
  sys_open-Isolated = elim (Bool-cases (is_neg16 (proc_free_fd p.open_files))) [
    | inl full ↦ rw full (ends_put _)
    | inr free ↦ rw free (opens (get_elem? p.open_files (proc_free_fd p.open_files)))
  ]
    where
      opens :
          (o : Option ProcFile)
          → IsolatedCall k p (open_fd drivers k p (proc_free_fd p.open_files) o)
      opens none = tt
      opens (some file) = put-Isolated k p _ _ (after_request k.last_req_id _)

  pub sys_close-Isolated : IsolatedCall k p (sys_close drivers k p)
  unfolding sys_close
  sys_close-Isolated = with_file-Isolated drivers k p _ λ file. ends_put _

  with_vnode-Isolated :
      (file : ProcFile) (rest : Option ℕ → Call S)
      → ((v : Option ℕ) → IsolatedCall k p (rest v))
      → IsolatedCall k p (with_vnode drivers file rest)
  with_vnode-Isolated file rest h = elim (Option-cases file.inode) [
    | inl closed ↦ rw closed tt
    | inr (inode, e) ↦ rw e (h inode.vnode)
  ]

  read_returns-Isolated :
      (id : ℕ) (b : Bool) (r : CallResult S)
      → IsolatedCall k p (read_returns drivers (record k { last_req_id = id }) p b r)
  read_returns-Isolated id true (returns r bytes s) = elim (Bool-cases (slt16 0 r)) [
    | inl some_read ↦
        rw some_read (
          put-Isolated k p _ _ (store-Isolated k p _ (reg p 2) (take r bytes) (after_request id s)))
    | inr none_read ↦ rw none_read (put-Isolated k p _ _ (after_request id s))
  ]
  read_returns-Isolated id false (returns r bytes s) =
      put-Isolated k p _ _ (store-Isolated k p _ (reg p 2) bytes (after_request id s))
  read_returns-Isolated id true (sleeps_on req s) = after_request id s
  read_returns-Isolated id false (sleeps_on req s) = after_request id s
  read_returns-Isolated id true sleeps_in_driver = after_request id k.driver_state
  read_returns-Isolated id false sleeps_in_driver = after_request id k.driver_state
  read_returns-Isolated id true fails = tt
  read_returns-Isolated id false fails = tt

  write_returns-Isolated :
      (id : ℕ) (r : CallResult S)
      → IsolatedCall k p (write_returns drivers (record k { last_req_id = id }) p r)
  write_returns-Isolated id (returns r bytes s) = put-Isolated k p _ _ (after_request id s)
  write_returns-Isolated id (sleeps_on req s) = after_request id s
  write_returns-Isolated id sleeps_in_driver = after_request id k.driver_state
  write_returns-Isolated id fails = tt

  pub sys_read-Isolated : (junk : List ℕ) → IsolatedCall k p (sys_read drivers junk k p)
  unfolding sys_read
  sys_read-Isolated junk =
      with_file-Isolated drivers k p _ λ file. with_vnode-Isolated file _ (reads file)
    where
      reads :
          (file : ProcFile) (v : Option ℕ) → IsolatedCall k p (read_vnode drivers k p junk file v)
      reads file none = tt
      reads file (some vnode) = read_returns-Isolated _ _ _

  pub sys_write-Isolated : IsolatedCall k p (sys_write drivers k p)
  unfolding sys_write
  sys_write-Isolated =
      with_file-Isolated drivers k p _ λ file. with_vnode-Isolated file _ (writes file)
    where
      writes : (file : ProcFile) (v : Option ℕ) → IsolatedCall k p (write_vnode drivers k p file v)
      writes file none = tt
      writes file (some vnode) = write_returns-Isolated _ _

  pub sys_fcntl-Isolated : IsolatedCall k p (sys_fcntl drivers k p)
  unfolding sys_fcntl
  sys_fcntl-Isolated = with_file-Isolated drivers k p _ λ file.
      elim (Bool-cases (reg p 2 == f_flags)) [
        | inl flags ↦ rw flags (ends_put _)
        | inr other ↦
            rw other
              (elim (Bool-cases (leb f_driver_custom_start (reg p 2) && not (is_neg16 (reg p 2)))) [
                | inl custom ↦ rw custom (ends_put _)
                | inr bad ↦ rw bad (ends_put _)
              ])
      ]

  pub sys_procinfo-Isolated : IsolatedCall k p (sys_procinfo k p)
  unfolding sys_procinfo
  sys_procinfo-Isolated = tells _
    where
      tells : (o : Option (ℕ × Proc)) → IsolatedCall k p (tell_info k p o)
      tells none = ends_put _
      tells (some (i, proc)) =
          put-Isolated k p _ _
            (store-Isolated k p k (reg p 2) (bytes_of (proc_info proc)) (unchanged k p))

  pub sys_pgmap-Isolated : IsolatedCall k p (sys_pgmap k p)
  unfolding sys_pgmap
  sys_pgmap-Isolated =
      let page : ℕ = get_or p.syscall_state.mem_pages (reg p 1) 0 in
      elim (Bool-cases (is_neg16 (reg p 1) || leb 16 (reg p 1))) [
        | inl bad ↦ rw bad (ends_put _)
        | inr good ↦ rw good (elim (Bool-cases (not (page == 0xFF) && not (page == 0))) [
          | inl used ↦ rw used (ends_put _)
          | inr free ↦ rw free (
              put-Isolated k p _ _ (
                kept k p (record k { first_free_page = add16 k.first_free_page 1 }) refl refl refl))
        ])
      ]

  pub sys_sighdlrret-Isolated : IsolatedCall k p (sys_sighdlrret k p)
  unfolding sys_sighdlrret
  sys_sighdlrret-Isolated = after (signal_handler_return k.mem p)
    where
      after : (o : Option Proc) → IsolatedCall k p (handler_returned k o)
      after none = tt
      after (some q) = ends_put q

  pub sys_sigwait-Isolated : IsolatedCall k p (sys_sigwait k p)
  unfolding sys_sigwait
  sys_sigwait-Isolated = elim (Bool-cases (not (p.sighandler == 0) && (p.signals_hold == 0))) [
    | inl handled ↦ rw handled (ends_put _)
    | inr waits ↦ rw waits (down (semaphore_down (k.counts p.signal_sema)))
  ]
    where
      takes_one :
          (counts : Counts) (queue : List Signal)
          → IsolatedCall k p (take_signal (record k { counts = counts }) p queue)
      takes_one counts [] = tt
      takes_one counts (signal ∷ rest) = put-Isolated k p _ _ (
          store-Isolated k p (record k { counts = counts }) (reg p 1)
            (bytes_of (signal_words signal)) (kept k p _ refl refl refl))

      down : (d : Down) → IsolatedCall k p (sema_down k p d)
      down panics = tt
      down sleeps = ends_put _
      down (takes count) = takes_one _ p.signal_queue

  pub sys_mqsend-Isolated : (block : ℕ) → IsolatedCall k p (sys_mqsend block k p)
  unfolding sys_mqsend
  sys_mqsend-Isolated block = pushes _ _
    where
      pushes :
          (heap : ℕ → List ℕ) (r : Option Thread × Mqs)
          → IsolatedCall k p (pushed (record k { heap = heap }) p r)
      pushes heap (none, mqs) =
          put-Isolated k p _ _ (kept k p (record k { heap = heap; mqs = mqs }) refl refl refl)
      pushes heap (some thread, mqs) = kept k p (record k { heap = heap; mqs = mqs }) refl refl refl

  pub sys_mqrecv-Isolated : IsolatedCall k p (sys_mqrecv k p)
  unfolding sys_mqrecv
  sys_mqrecv-Isolated = goes_on _
    where
      goes_on : (o : Option Thread) → IsolatedCall k p (enters k p o)
      goes_on none = ends_put _
      goes_on (some thread) = unchanged k p

  pub sys_mqcreat-Isolated : IsolatedCall k p (sys_mqcreat k p)
  unfolding sys_mqcreat
  sys_mqcreat-Isolated = put-Isolated k p _ _ (kept k p (record k { mqs = _ }) refl refl refl)
