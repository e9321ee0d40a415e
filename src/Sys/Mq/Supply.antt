-- ===== src/Sys/Mq/Supply.antt =====
-- What a blocking queue counts: no popper that was let through finds the queue empty.
use pi_os.Common.{
  ℕ, ◌+◌, ◌%◌, ◌≤◌, ◌<◌, ◌≡◌, ◌≢◌, refl, ap, ◌∙◌, subst, arith, some, List, [], ◌∷◌, ◌++◌,
  get_elem?, set, length, length-append,
}
use pi_os.Common.Word.{u16_mod, add16, sub16}
use pi_os.Libk.Semaphore.{Down, panics, sleeps, takes}
use pi_os.Sys.Mq.{
  MqMsg, MqEntry, Thread, push_locks, push_appends, push_signals, push_counts, push_unlocks,
  pop_waits, pop_locks, pop_takes, pop_counts, pop_unlocks, try_locks, try_tests, try_gives_up,
  try_takes, try_waits, try_counts, try_unlocks, returned, Outcome, goes, waits, asserts, faults,
  down_lock, down_data, take_first, step, System, Step, turn, Reach, here, next,
}
use pi_os.Sys.Mq.Invariant.{Downs, semaphore_down-Downs}
use pi_os.Sys.Mq.Counts.{total, total-split, promised, tries, uncounted, taken}

-- The numbers of a queue: of its messages, of `data_available`, of the promised ones.
abbrev Supplied : (n ready owed : ℕ) → Type 0
Supplied n ready owed = (owed ≤ n) × ((ready + owed) % u16_mod ≡ n % u16_mod) × (ready < u16_mod)

abbrev Counted : (n len more less : ℕ) → Type 0
Counted n len more less = (len + more) % u16_mod ≡ (n + less) % u16_mod

Supplied-append :
    (n n' ready o o' : ℕ) → n' ≡ n + 1 → o' ≡ o + 1 → Supplied n ready o → Supplied n' ready o'
Supplied-append n n' ready o o' en eo (le, e, small) =
    (omega (arith, en, eo), omega (arith, en, eo), small)

Supplied-signal :
    (n ready o o' : ℕ) → o ≡ o' + 1 → Supplied n ready o → Supplied n (add16 ready 1) o'
Supplied-signal n ready o o' eo (le, e, small) = (omega (arith, eo), omega (arith, eo), omega arith)

Supplied-wait :
    (n ready left o o' : ℕ)
    → left + 1 ≡ ready
    → o' ≡ o + 1
    → Supplied n ready o
    → Supplied n left o'
Supplied-wait n ready left o o' el eo (le, e, small) =
    (omega (arith, el, eo), omega (arith, el, eo), omega (arith, el))

Supplied-take :
    (n n' ready o o' : ℕ) → n ≡ n' + 1 → o ≡ o' + 1 → Supplied n ready o → Supplied n' ready o'
Supplied-take n n' ready o o' en eo (le, e, small) =
    (omega (arith, en, eo), omega (arith, en, eo), small)

Counted-both :
    (n n' len m m' l l' : ℕ) → n' + m + l' ≡ n + m' + l → Counted n len m l → Counted n' len m' l'
Counted-both n n' len m m' l l' b e = omega (arith, b)

Counted-push :
    (n len m m' l l' : ℕ) → m ≡ m' + 1 → l ≡ l' → Counted n len m l → Counted n (add16 len 1) m' l'
Counted-push n len m m' l l' em el e = omega (arith, em, el)

Counted-pop :
    (n len m m' l l' : ℕ) → m ≡ m' → l ≡ l' + 1 → Counted n len m l → Counted n (sub16 len 1) m' l'
Counted-pop n len m m' l l' em el e = omega (arith, em, el)

-- The numbers of a queue and one thread; the other threads have `k` promised, `a` uncounted and `b`
-- taken messages.
record Local (k a b : ℕ) (e : MqEntry) (t : Thread) : Type 0 where
  supplied : Supplied (length e.mq) e.data_available (promised t + k)
  counted : Counted (length e.mq) e.len (uncounted t + a) (taken t + b)
  blocking : tries t ≡ 0

abbrev After : (k a b : ℕ) → Outcome → Type 0
After k a b (goes e t) = Local k a b e t
After k a b waits = Unit {0}
After k a b asserts = Unit {0}
After k a b faults = ⊥

down_lock-After :
    (k a b : ℕ) (e : MqEntry) (t : Thread) (d : Down)
    → Local k a b e t
    → After k a b (down_lock e t d)
down_lock-After k a b e t panics h = tt
down_lock-After k a b e t sleeps h = tt
down_lock-After k a b e t (takes left) h = record {
  supplied = h.supplied;
  counted = h.counted;
  blocking = h.blocking;
}

pop_waits-After :
    (k a b : ℕ) (e : MqEntry) (d : Down)
    → Local k a b e pop_waits
    → Downs e.data_available d
    → After k a b (down_data e pop_locks d)
pop_waits-After k a b e panics h d = tt
pop_waits-After k a b e sleeps h d = tt
pop_waits-After k a b e (takes left) h d = record {
  supplied =
      Supplied-wait (length e.mq) e.data_available left (0 + k) (1 + k) d (omega arith) h.supplied;
  counted = h.counted;
  blocking = refl;
}

pop_takes-After :
    (k a b : ℕ) (e : MqEntry) (mq : List MqMsg)
    → e.mq ≡ mq
    → Local k a b e pop_takes
    → After k a b (take_first e pop_counts mq)
pop_takes-After k a b e [] is h = none_left h.supplied.0
  where
    none_left : 1 + k ≤ length e.mq → ⊥
    none_left le = omega (arith, ap (length {0}) is)
pop_takes-After k a b e (m ∷ mq) is h =
    let n : length e.mq ≡ length mq + 1 = ap (length {0}) is ∙ omega arith in
    record {
      supplied = Supplied-take _ _ e.data_available (1 + k) (0 + k) n (omega arith) h.supplied;
      counted =
          Counted-both (length e.mq) (length mq) e.len (0 + a) (0 + a) (0 + b) (1 + b)
            (omega (arith, n)) h.counted;
      blocking = refl;
    }

push_appends-After :
    (k a b : ℕ) (e : MqEntry) (m : MqMsg)
    → Local k a b e (push_appends m)
    → Local k a b (record e { mq = e.mq ++ (m ∷ []) }) (push_signals m)
push_appends-After k a b e m h =
    let n : length (e.mq ++ (m ∷ [])) ≡ length e.mq + 1 =
      omega (arith, length-append e.mq (m ∷ [])) in
    record {
      supplied = Supplied-append _ _ e.data_available (0 + k) (1 + k) n (omega arith) h.supplied;
      counted =
          Counted-both (length e.mq) (length (e.mq ++ (m ∷ []))) e.len (0 + a) (1 + a) (0 + b)
            (0 + b) (omega (arith, n)) h.counted;
      blocking = refl;
    }

-- A step of a thread of a blocking call keeps the numbers, and does not find the queue empty.
step-After : (k a b : ℕ) (e : MqEntry) (t : Thread) → Local k a b e t → After k a b (step e t)
unfolding step
step-After k a b e (push_locks m) h =
    down_lock-After k a b e _ _
      (record { supplied = h.supplied; counted = h.counted; blocking = refl })
step-After k a b e (push_appends m) h = push_appends-After k a b e m h
step-After k a b e (push_signals m) h = record {
  supplied =
      Supplied-signal (length e.mq) e.data_available (1 + k) (0 + k) (omega arith) h.supplied;
  counted = h.counted;
  blocking = refl;
}
step-After k a b e (push_counts m) h = record {
  supplied = h.supplied;
  counted =
      Counted-push (length e.mq) e.len (1 + a) (0 + a) (0 + b) (0 + b) (omega arith) refl h.counted;
  blocking = refl;
}
step-After k a b e (push_unlocks m) h = record {
  supplied = h.supplied;
  counted = h.counted;
  blocking = refl;
}
step-After k a b e pop_waits h = pop_waits-After k a b e _ h (semaphore_down-Downs e.data_available)
step-After k a b e pop_locks h =
    down_lock-After k a b e _ _
      (record { supplied = h.supplied; counted = h.counted; blocking = refl })
step-After k a b e pop_takes h = pop_takes-After k a b e e.mq refl h
step-After k a b e (pop_counts m) h = record {
  supplied = h.supplied;
  counted =
      Counted-pop (length e.mq) e.len (0 + a) (0 + a) (1 + b) (0 + b) refl (omega arith) h.counted;
  blocking = refl;
}
step-After k a b e (pop_unlocks m) h = record {
  supplied = h.supplied;
  counted = h.counted;
  blocking = refl;
}
step-After k a b e try_locks h = absurd (omega (arith, h.blocking))
step-After k a b e try_tests h = absurd (omega (arith, h.blocking))
step-After k a b e try_gives_up h = absurd (omega (arith, h.blocking))
step-After k a b e try_takes h = absurd (omega (arith, h.blocking))
step-After k a b e (try_waits m) h = absurd (omega (arith, h.blocking))
step-After k a b e (try_counts m) h = absurd (omega (arith, h.blocking))
step-After k a b e (try_unlocks m) h = absurd (omega (arith, h.blocking))
step-After k a b e (returned m) h = tt

-- The threads are in blocking calls, and the counts of the queue fit its messages: those that are not
-- signalled or promised are available, and `len` counts all but for the steps in progress.
pub record IsSupplied (s : System) : Type 0 where
  pub owed : total promised s.threads ≤ length s.entry.mq
  pub available :
      (s.entry.data_available + total promised s.threads) % u16_mod ≡ length s.entry.mq % u16_mod
  pub small : s.entry.data_available < u16_mod
  pub counted :
      (s.entry.len + total uncounted s.threads) % u16_mod
      ≡ (length s.entry.mq + total taken s.threads) % u16_mod
  pub blocking : total tries s.threads ≡ 0

Local-of :
    (s : System) (i : ℕ) (t : Thread)
    → get_elem? s.threads i ≡ some t
    → IsSupplied s
    → (k : ℕ) × (a : ℕ) × (b : ℕ) × Local k a b s.entry t
      × ((e : MqEntry) (t' : Thread)
          → Local k a b e t'
          → IsSupplied (record { entry = e; threads = set s.threads i t' }))
Local-of s i t at h =
    let (k, now_k, after_k) = total-split promised s.threads i t at in
    let (a, now_a, after_a) = total-split uncounted s.threads i t at in
    let (b, now_b, after_b) = total-split taken s.threads i t at in
    let (z, now_z, after_z) = total-split tries s.threads i t at in
    (
      k,
      a,
      b,
      record {
        supplied =
            subst (Supplied (length s.entry.mq) s.entry.data_available) now_k
              (h.owed, h.available, h.small);
        counted = Counted-both _ _ s.entry.len _ _ _ _ (omega (arith, now_a, now_b)) h.counted;
        blocking = omega (arith, now_z, h.blocking);
      },
      λ e t' l.
          let (owed, available, small) = l.supplied in
          record {
            owed = omega (arith, after_k t', owed);
            available = ap (λ n. (e.data_available + n) % u16_mod) (after_k t') ∙ available;
            small = small;
            counted =
                Counted-both _ _ e.len _ _ _ _ (omega (arith, after_a t', after_b t')) l.counted;
            blocking = omega (arith, after_z t', l.blocking, now_z, h.blocking);
          },
    )

Step-IsSupplied : {s s' : System} → Step s s' → IsSupplied s → IsSupplied s'
Step-IsSupplied {s} (turn i t {e} {t'} at goes_on) h =
    let (k, a, b, l, back) = Local-of s i t at h in
    back e t' (subst (After k a b) goes_on (step-After k a b s.entry t l))

-- Whatever the order in which threads push and pop, without the calls that do not block, the counts
-- stay right: `data_available` and `len` are the number of messages, modulo a word, but for those
-- promised to a thread or in the hands of one.
pub Reach-IsSupplied : {s s' : System} → Reach s s' → IsSupplied s → IsSupplied s'
Reach-IsSupplied here h = h
Reach-IsSupplied (next r st) h = Step-IsSupplied st (Reach-IsSupplied r h)

-- Whatever the order in which threads push and pop, without the calls that do not block, no thread
-- takes from an empty queue.
pub Reach-ne_faults :
    {s s' : System} (i : ℕ) (t : Thread)
    → Reach s s'
    → IsSupplied s
    → get_elem? s'.threads i ≡ some t
    → step s'.entry t ≢ faults
Reach-ne_faults {s} {s'} i t r h at e =
    let (k, a, b, l, _) = Local-of s' i t at (Reach-IsSupplied r h) in
    subst (After k a b) e (step-After k a b s'.entry t l)
