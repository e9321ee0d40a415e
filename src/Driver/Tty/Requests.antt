-- ===== src/Driver/Tty/Requests.antt =====
-- kernel/driver/tty.c: the requests of the processes, and the rounds of the two threads that serve
-- them. A list of requests is the list of those on it.
use pi_os.Common.{
  ℕ, zero, suc, ◌%◌, ◌&&◌, Option, List, [], ◌∷◌, ◌++◌, Bool, min, drop, leb, ◌==◌, if◌then◌else◌,
}
use pi_os.Common.Word.{add16, sub16, neg16}
use pi_os.Libk.Ringbuff.{ringbuff_length, ringbuff_read}
use pi_os.Libk.Semaphore.{semaphore_up, semaphore_down, Down, panics, sleeps, takes}
use pi_os.Fs.{ewouldblock, enosup}
use pi_os.Fs.Requests.{
  Request, Submitted, accepts, asserts, sleeps_inside, vfs_async_type_read, vfs_async_type_write,
  vfs_async_finalize,
}
use pi_os.Driver.Tty.Console.{Console, tty_putc}
use pi_os.Driver.Tty.Line.{Typed, tty_buff_size}

abbrev pub tty_submit_buff : ℕ
tty_submit_buff = 128

-- The semaphores are their counts.
pub record Queues : Type 0 where
  pub typed : Typed
  pub read_queue_buff : ℕ
  pub insert_lock : ℕ
  pub list_read_sema : ℕ
  pub req_read_list : List Request
  pub list_write_sema : ℕ
  pub req_write_list : List Request

-- `req->flags & VFS_ASYNC_FLAG_WANT_WOULDBLOCK`
abbrev pub wants_wouldblock : Request → Bool
wants_wouldblock req = req.flags % 2 == 1

abbrev unlocked : Queues → Queues
unlocked q = record q { insert_lock = semaphore_up q.insert_lock }

-- `tty_submit_req` with the lock held
abbrev pub submit_locked : Request → Queues → Submitted Queues
submit_locked req q =
    if req.kind == vfs_async_type_read
    then (if wants_wouldblock req && leb (ringbuff_length q.typed.read_rb) q.read_queue_buff
        then accepts (neg16 ewouldblock) req (unlocked q)
        else accepts 0 req (
            unlocked (record q {
              read_queue_buff = add16 q.read_queue_buff req.size;
              req_read_list = q.req_read_list ++ (req ∷ []);
              list_read_sema = semaphore_up q.list_read_sema;
            })))
    else if req.kind == vfs_async_type_write
    then accepts 0 req (
        unlocked (record q {
          req_write_list = q.req_write_list ++ (req ∷ []);
          list_write_sema = semaphore_up q.list_write_sema;
        }))
    else accepts (neg16 enosup) req (unlocked q)

abbrev pub submit_down : Request → Queues → Down → Submitted Queues
submit_down req q panics = asserts
submit_down req q sleeps = sleeps_inside
submit_down req q (takes count) = submit_locked req (record q { insert_lock = count })

unfoldable pub tty_submit_req : Request → Queues → Submitted Queues
tty_submit_req req q = submit_down req q (semaphore_down q.insert_lock)

-- How a round of a thread ends: with the finished request and its callback, asleep on one of the
-- semaphores, in a panic, or at a request that is not there.
pub data Round : Type 0 where
  finishes : Request × Option ℕ → Queues → Round
  sleeps_in_round : Queues → Round
  round_panics : Round
  reads_null : Round

abbrev first_chars : ℕ → List ℕ → Console → Console
first_chars zero cs t = t
first_chars (suc n) [] t = first_chars n [] (tty_putc t 0)
first_chars (suc n) (c ∷ cs) t = first_chars n cs (tty_putc t c)

-- `tty_driver_thread_write` once it has a request. What lies past the buffer that is given is 0.
abbrev write_first : List Request → Queues → Round
write_first [] q = reads_null
write_first (req ∷ reqs) q =
    let size : ℕ = min req.size tty_submit_buff in
    finishes (vfs_async_finalize (record req { size = size }) size) (record q {
      typed = record q.typed { console = first_chars size req.vbuff q.typed.console };
      req_write_list = reqs;
    })

abbrev write_down : Queues → Down → Round
write_down q panics = round_panics
write_down q sleeps = sleeps_in_round q
write_down q (takes count) = write_first q.req_write_list (record q { list_write_sema = count })

unfoldable pub tty_driver_thread_write : Queues → Round
tty_driver_thread_write q = write_down q (semaphore_down q.list_write_sema)

-- `ringbuff_read` and what follows, with the lock held; the bytes read overlay the buffer.
abbrev read_locked : Request → List Request → Queues → Round
read_locked req reqs q =
    let (res, bytes, rb) = ringbuff_read q.typed.read_rb req.size in
    finishes (vfs_async_finalize (record req { vbuff = bytes ++ drop res req.vbuff }) res) (
      unlocked (record q {
        typed = record q.typed { read_rb = rb };
        read_queue_buff = sub16 q.read_queue_buff req.size;
        req_read_list = reqs;
      }))

abbrev read_down : Request → List Request → Queues → Down → Round
read_down req reqs q panics = round_panics
read_down req reqs q sleeps = sleeps_in_round q
read_down req reqs q (takes count) = read_locked req reqs (record q { insert_lock = count })

abbrev data_down : Queues → Down → (Queues → Round) → Round
data_down q panics rest = round_panics
data_down q sleeps rest = sleeps_in_round q
data_down q (takes count) rest =
    rest (record q { typed = record q.typed { read_data_signal = count } })

-- The loop that waits for data, and the read. A turn takes one from `read_data_signal`, so there
-- are as many turns as it counts, and one more.
unfoldable pub await_data : ℕ → Request → List Request → Queues → Round
await_data zero req reqs q = sleeps_in_round q
await_data (suc n) req reqs q =
    if ringbuff_length q.typed.read_rb == 0
    then (if wants_wouldblock req
        then round_panics
        else data_down q (semaphore_down q.typed.read_data_signal) (await_data n req reqs))
    else read_down req reqs q (semaphore_down q.insert_lock)

abbrev read_first : List Request → Queues → Round
read_first [] q = reads_null
read_first (req ∷ reqs) q =
    await_data (suc q.typed.read_data_signal) (record req { size = min req.size tty_buff_size })
      reqs q

abbrev list_down : Queues → Down → Round
list_down q panics = round_panics
list_down q sleeps = sleeps_in_round q
list_down q (takes count) = read_first q.req_read_list (record q { list_read_sema = count })

unfoldable pub tty_driver_thread_read : Queues → Round
tty_driver_thread_read q = list_down q (semaphore_down q.list_read_sema)
