-- ===== src/Proc/Threads/Create.antt =====
-- New threads have a pid and pages of their own.
use pi_os.Common.{
  ℕ, ◌+◌, ◌≤◌, ◌<◌, ◌≡◌, refl, ap, ◌∙◌, arith, some, List, [], ◌∷◌, ◌++◌, ◌==◌, if◌then◌else◌,
  get_or, length, ne→==,
}
use pi_os.Common.Word.{add16}
use pi_os.Libc.Strings.{CString}
use pi_os.Proc.{Proc, type_user, type_kernel}
use pi_os.Proc.Signals.{proc_by_pid, one_later}
use pi_os.Proc.Threads.{Pool, make_kernel_thread, sched_init_user_thread}

-- The page of the stack in user mode, or of a kernel thread.
abbrev pub stack_page : Proc → ℕ
stack_page p = get_or p.proc_state.mem_pages 15 0

-- The pages that a thread has for itself: one for a kernel thread, and one more for a user thread.
abbrev pub last_page : Proc → ℕ
last_page p = if p.kind == type_user then p.kernel_stack_page else stack_page p

-- From `lo` up to before `hi`, the pages of the threads ascend in the order of the list: no page has
-- two owners.
abbrev pub PagesWithin : ℕ → List Proc → ℕ → Type 0
PagesWithin lo [] hi = lo ≤ hi
PagesWithin lo (p ∷ ps) hi =
    (lo ≤ stack_page p) × (stack_page p ≤ last_page p) × PagesWithin (last_page p + 1) ps hi

-- From `lo` on, the pids ascend in the order of the list, up to `last`.
abbrev pub PidsWithin : ℕ → List Proc → ℕ → Type 0
PidsWithin lo [] last = lo ≤ last + 1
PidsWithin lo (p ∷ ps) last = (lo ≤ p.pid) × PidsWithin (p.pid + 1) ps last

PagesWithin-snoc :
    (lo : ℕ) (ps : List Proc) (hi : ℕ) (p : Proc) (hi' : ℕ)
    → PagesWithin lo ps hi
    → hi ≤ stack_page p
    → stack_page p ≤ last_page p
    → last_page p + 1 ≤ hi'
    → PagesWithin lo (ps ++ (p ∷ [])) hi'
PagesWithin-snoc lo [] hi p hi' h a b c = (omega (arith, h, a), b, c)
PagesWithin-snoc lo (q ∷ ps) hi p hi' (l, m, h) a b c =
    (l, m, PagesWithin-snoc (last_page q + 1) ps hi p hi' h a b c)

PidsWithin-snoc :
    (lo : ℕ) (ps : List Proc) (last : ℕ) (p : Proc)
    → PidsWithin lo ps last
    → p.pid ≡ last + 1
    → PidsWithin lo (ps ++ (p ∷ [])) p.pid
PidsWithin-snoc lo [] last p h e = (omega (arith, h, e), omega arith)
PidsWithin-snoc lo (q ∷ ps) last p (l, h) e = (l, PidsWithin-snoc (q.pid + 1) ps last p h e)

PidsWithin-le : (lo : ℕ) (ps : List Proc) (last : ℕ) → PidsWithin lo ps last → lo ≤ last + 1
PidsWithin-le lo [] last h = h
PidsWithin-le lo (q ∷ ps) last (l, h) = omega (arith, l, PidsWithin-le (q.pid + 1) ps last h)

-- A pid past those of the list is of the process that is appended with it.
proc_by_pid-snoc :
    (lo : ℕ) (ps : List Proc) (last : ℕ) (p : Proc)
    → PidsWithin lo ps last
    → last < p.pid
    → proc_by_pid (ps ++ (p ∷ [])) p.pid ≡ some (length ps, p)
unfolding proc_by_pid
proc_by_pid-snoc lo [] last p h lt = ground arith
proc_by_pid-snoc lo (q ∷ ps) last p (l, h) lt =
    let le = PidsWithin-le (q.pid + 1) ps last h in
    rw (ne→== q.pid p.pid (omega (arith, le))) (
      ap one_later (proc_by_pid-snoc (q.pid + 1) ps last p h lt)
      ∙ ap (λ n. some (n, p)) (omega arith))

-- The threads have distinct pids from 1 to `pid_now`, and distinct pages below `first_free_page`.
pub record IsValid (s : Pool) : Type 0 where
  pub pids : PidsWithin 1 s.procs s.pid_now
  pub pages : PagesWithin 0 s.procs s.first_free_page

-- As long as pids and pages do not run out, `make_kernel_thread` keeps the pids and pages of the
-- threads distinct, and the pid that it returns finds the new thread, which can run from `entry`.
pub make_kernel_thread-proc_by_pid :
    (fresh : Proc) (s : Pool) (name : CString) (entry : ℕ)
    → IsValid s
    → s.pid_now < 0x7FFF
    → s.first_free_page < 0xFFFF
    → let (pid, s') = make_kernel_thread fresh s name entry in
      IsValid s'
      × ((p : Proc) × (proc_by_pid s'.procs pid ≡ some (length s.procs, p))
          × (p.kind ≡ type_kernel)
          × (p.proc_state.pc ≡ entry)
          × (stack_page p ≡ s.first_free_page))
unfolding make_kernel_thread
make_kernel_thread-proc_by_pid fresh s name entry v small free =
    let pid : add16 s.pid_now 1 ≡ s.pid_now + 1 = omega (arith, small) in
    (
      record {
        pids = PidsWithin-snoc 1 s.procs s.pid_now _ v.pids pid;
        pages =
            PagesWithin-snoc 0 s.procs s.first_free_page _ _ v.pages (omega arith) (omega arith)
              (omega (arith, free));
      },
      (_, proc_by_pid-snoc 1 s.procs s.pid_now _ v.pids (omega (arith, pid)), refl, refl, refl),
    )

-- As long as pids and pages do not run out, `sched_init_user_thread` keeps the pids and pages of the
-- threads distinct, and its process, with two new pages, is found by its pid.
pub sched_init_user_thread-proc_by_pid :
    (fresh : Proc) (s : Pool)
    → IsValid s
    → s.pid_now < 0x7FFF
    → s.first_free_page < 0xFFFE
    → let (p, s') = sched_init_user_thread fresh s in
      IsValid s'
      × (proc_by_pid s'.procs p.pid ≡ some (length s.procs, p))
      × (stack_page p ≡ s.first_free_page)
      × (p.kernel_stack_page ≡ s.first_free_page + 1)
unfolding sched_init_user_thread
sched_init_user_thread-proc_by_pid fresh s v small free =
    let pid : add16 s.pid_now 1 ≡ s.pid_now + 1 = omega (arith, small) in
    (
      record {
        pids = PidsWithin-snoc 1 s.procs s.pid_now _ v.pids pid;
        pages =
            PagesWithin-snoc 0 s.procs s.first_free_page _ _ v.pages (omega arith)
              (omega (arith, free)) (omega (arith, free));
      },
      proc_by_pid-snoc 1 s.procs s.pid_now _ v.pids (omega (arith, pid)),
      refl,
      omega (arith, free),
    )
