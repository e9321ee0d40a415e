-- ===== src/Driver/Tty/Serve.antt =====
-- kernel/driver/tty.c: a read of the terminal, from the call to the finished request.
use pi_os.Common.{
  ℕ, ◌+◌, ◌-◌, ◌%◌, ◌<◌, ◌≡◌, ◌≢◌, ◌∙◌, refl, ap, arith, false, ◌&&◌, [], length, take, drop,
  take-prefix, length-take, min, leb, ne→==, eq→==, subst,
}
use pi_os.Libk.Ringbuff.{ringbuff_length, ringbuff_read}
use pi_os.Libk.Ringbuff.Inv.{IsValid, contents, length-contents}
use pi_os.Libk.Ringbuff.Refine.{ringbuff_read-take}
use pi_os.Libk.Semaphore.{semaphore_down}
use pi_os.Fs.Requests.{
  Request, Submitted, accepts, asserts, sleeps_inside, vfs_async_type_read, vfs_async_finalize,
}
use pi_os.Driver.Tty.Requests.{
  Queues, wants_wouldblock, tty_submit_req, Round, finishes, sleeps_in_round, round_panics,
  reads_null, await_data, tty_driver_thread_read,
}

-- No read waits: neither in the list nor in the thread that serves it.
pub record IsIdle (q : Queues) : Type 0 where
  pub lock_free : q.insert_lock ≡ 1
  pub none_counted : q.list_read_sema ≡ 0
  pub none_waits : q.req_read_list ≡ []
  pub ring : IsValid q.typed.read_rb

-- The thread that serves reads takes its turn once the request is accepted.
abbrev pub then_serve : Submitted Queues → Round
then_serve (accepts rc req q) = tty_driver_thread_read q
then_serve asserts = round_panics
then_serve sleeps_inside = round_panics

abbrev pub most : Request → ℕ
most req = min req.size 255

-- The request is finished with the first bytes of the ring, which leave it, and no read waits.
abbrev pub Serves : Request → Queues → Round → Type 0
Serves req q (finishes done q') =
    (done.0.res ≡ min (most req) (ringbuff_length q.typed.read_rb))
    × (take done.0.res done.0.vbuff ≡ take (most req) (contents q.typed.read_rb))
    × (done.1 ≡ req.callback)
    × (contents q'.typed.read_rb ≡ drop (most req) (contents q.typed.read_rb))
    × (q'.read_queue_buff ≡ (q.read_queue_buff + (req.size - most req)) % 0x1_0000)
    × IsIdle q'
Serves req q (sleeps_in_round q') = ⊥
Serves req q round_panics = ⊥
Serves req q reads_null = ⊥

abbrev at_rest : Queues → Queues
at_rest q = record q { insert_lock = 1; list_read_sema = 0; req_read_list = [] }

served_at_rest :
    (req : Request) (q : Queues)
    → IsValid q.typed.read_rb
    → req.kind ≡ vfs_async_type_read
    → req.size < 0x1_0000
    → q.read_queue_buff < 0x1_0000
    → ringbuff_length q.typed.read_rb ≢ 0
    → (wants_wouldblock req && leb (ringbuff_length q.typed.read_rb) q.read_queue_buff) ≡ false
    → Serves req (at_rest q) (then_serve (tty_submit_req req (at_rest q)))
unfolding tty_submit_req tty_driver_thread_read await_data vfs_async_finalize semaphore_down
served_at_rest req q v k s b ne ok =
    let (count, bytes, left, valid, size) = ringbuff_read-take (most req) v in
    let all : (ringbuff_read q.typed.read_rb (most req)).0
        ≡ length (ringbuff_read q.typed.read_rb (most req)).1 =
      omega (
        arith,
        ap (length {0}) bytes,
        length-take (most req) (contents q.typed.read_rb),
        length-contents q.typed.read_rb,
      ) in
    simp (eq→== req.kind 1 k, ok, ne→== (ringbuff_length q.typed.read_rb) 0 ne)
      (
        count,
        take-prefix _ _ _ all ∙ bytes,
        refl,
        left,
        omega arith,
        record { lock_free = refl; none_counted = refl; none_waits = refl; ring = valid },
      )

-- On an idle terminal whose ring holds bytes, a read that is not refused as one that would block is
-- served by the next turn of the thread: the request is finished with the oldest bytes, at most 255,
-- which leave the ring, and the terminal is idle again. `read_queue_buff` is as before if at most 255 bytes are asked for;
-- what is asked for beyond them stays in it.
pub tty_submit_req-served :
    (req : Request) (q : Queues)
    → IsIdle q
    → req.kind ≡ vfs_async_type_read
    → req.size < 0x1_0000
    → q.read_queue_buff < 0x1_0000
    → ringbuff_length q.typed.read_rb ≢ 0
    → (wants_wouldblock req && leb (ringbuff_length q.typed.read_rb) q.read_queue_buff) ≡ false
    → Serves req q (then_serve (tty_submit_req req q))
tty_submit_req-served req q idle k s b ne ok =
    let e : at_rest q ≡ q = ground (arith, idle.lock_free, idle.none_counted, idle.none_waits) in
    subst (λ r. Serves req r (then_serve (tty_submit_req req r))) e
      (served_at_rest req q idle.ring k s b ne ok)
