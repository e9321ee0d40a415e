-- ===== src/Libk/Blockq.antt =====
-- kernel/libk/con/blockq.c: blocking queues of elements of a fixed size, on a ring of bytes.
-- `pid` is the process that calls. A result other than `done` is a process that sleeps on a semaphore,
-- yields on the spinlock, or stops at an `ASSERT`.
pub mod Elements
mod Tests
use pi_os.Common.{
  ℕ, ◌+◌, ◌*◌, Option, none, some, not, List, [], ◌∷◌, ltb, leb, ◌==◌, if◌then◌else◌,
}
use pi_os.Common.Word.{add16, sub16, mul16}
use pi_os.Libk.Ringbuff.{Ringbuff, ringbuff_init, ringbuff_write, ringbuff_read}
use pi_os.Libk.Semaphore.{semaphore_init, semaphore_up, semaphore_down, Down, panics, sleeps, takes}
use pi_os.Libk.Spinlock.{Spinlock, spinlock_init, spinlock_lock, spinlock_unlock}

-- `struct blockq`
pub record Blockq : Type 0 where
  pub rbuff : Ringbuff
  pub not_empty : ℕ
  pub not_full : ℕ
  pub size : ℕ
  pub max_size : ℕ
  pub base_size : ℕ
  pub queue_lock : Spinlock

-- `storage` is what `kmalloc` gives the ring.
unfoldable pub blockq_init : (storage : List ℕ) → (size base_size : ℕ) → Blockq
blockq_init storage size base_size = record {
  rbuff = ringbuff_init storage (mul16 size base_size);
  not_empty = semaphore_init;
  not_full = size;
  size = 0;
  max_size = size;
  base_size = base_size;
  queue_lock = spinlock_init;
}

-- How a call goes: done, with the bytes that it wrote through `buff`.
pub data Call : Type 0 where
  done : List ℕ → Blockq → Call
  sleeps_on : Call
  spins : Call
  asserts : Call

-- The bodies with the spinlock held.
abbrev pub pop_locked : (pid : ℕ) → Blockq → Call
pop_locked pid s =
    let (rb, buff, rbuff) = ringbuff_read s.rbuff s.base_size in
    if s.size == 0
    then asserts
    else if rb == s.base_size
    then done buff (record s {
      rbuff = rbuff;
      size = sub16 s.size 1;
      not_full = semaphore_up s.not_full;
      queue_lock = (spinlock_unlock pid s.queue_lock).1;
    })
    else asserts

abbrev pub push_locked : (pid : ℕ) → Blockq → List ℕ → Call
push_locked pid s buff =
    let (wb, rbuff) = ringbuff_write s.rbuff buff in
    if wb == s.base_size
    then if leb (add16 s.size 1) s.max_size
      then done [] (record s {
        rbuff = rbuff;
        size = add16 s.size 1;
        not_empty = semaphore_up s.not_empty;
        queue_lock = (spinlock_unlock pid s.queue_lock).1;
      })
      else asserts
    else asserts

abbrev pub with_lock : (Blockq → Call) → Blockq → Option Spinlock → Call
with_lock body s none = spins
with_lock body s (some sl) = body (record s { queue_lock = sl })

abbrev pub pop_down : (pid : ℕ) → Blockq → Down → Call
pop_down pid s panics = asserts
pop_down pid s sleeps = sleeps_on
pop_down pid s (takes count) =
    with_lock (pop_locked pid) (record s { not_empty = count }) (spinlock_lock pid s.queue_lock)

abbrev pub push_down : (pid : ℕ) → List ℕ → Blockq → Down → Call
push_down pid buff s panics = asserts
push_down pid buff s sleeps = sleeps_on
push_down pid buff s (takes count) =
    with_lock (λ q. push_locked pid q buff) (record s { not_full = count })
      (spinlock_lock pid s.queue_lock)

unfoldable pub blockq_pop : (pid : ℕ) → Blockq → Call
blockq_pop pid s = pop_down pid s (semaphore_down s.not_empty)

-- `buff` is the element, of `base_size` bytes; the message to the log is left out.
unfoldable pub blockq_push : (pid : ℕ) → Blockq → (buff : List ℕ) → Call
blockq_push pid s buff = push_down pid buff s (semaphore_down s.not_full)

unfoldable pub blockq_push_nonblock : Blockq → (buff : List ℕ) → Call
blockq_push_nonblock s buff =
    let (wb, rbuff) = ringbuff_write s.rbuff buff in
    if ltb s.size s.max_size
    then done []
        (record s { rbuff = rbuff; size = add16 s.size 1; not_empty = semaphore_up s.not_empty })
    else asserts
