-- ===== src/Sys/Sysd/Messages.antt =====
-- kernel/sys/sysd.c: the system calls on message queues. The calls of mq.c go on step by step, and
-- what follows them here is given the message they return.
use pi_os.Common.{ℕ, Option, none, some, List, [], ◌∷◌, ◌==◌, if◌then◌else◌, min, take}
use pi_os.Common.Word.{add16, neg16}
use pi_os.Fs.{einval}
use pi_os.Proc.{Proc}
use pi_os.Proc.Handler.{bytes_of}
use pi_os.Proc.Virtual.{memcpy_from_userspace, memcpy_to_userspace}
use pi_os.Sys.Mq.{MqMsg, Mqs, Thread, mqs_create, mq_push, mq_pop, mq_pop_nonblock}
use pi_os.Sys.Sysd.{Kernel, Call, enters_mq, reg, returns_word}

-- The first three words of the message, and its bytes after them.
abbrev pub header : MqMsg → List ℕ
header res = bytes_of (res.id ∷ res.kind ∷ res.size ∷ [])

module _ {S : Type 0} where
  unfoldable pub sys_mqcreat : Kernel S → Proc → Call S
  sys_mqcreat k p = let (id, mqs) = mqs_create k.mqs in returns_word (record k { mqs = mqs }) p id

  -- What follows `mq_push`: nothing returns from an unknown queue but -1.
  abbrev pub pushed : Kernel S → Proc → Option Thread × Mqs → Call S
  pushed k p (none, mqs) = returns_word (record k { mqs = mqs }) p (neg16 1)
  pushed k p (some thread, mqs) = enters_mq (record k { mqs = mqs }) thread

  abbrev pub store_block : Kernel S → (address : ℕ) → List ℕ → Kernel S
  store_block k address bytes = record k { heap = λ a. if a == address then bytes else k.heap a }

  -- `block` is what `kmalloc` returns for the bytes of the message.
  unfoldable pub sys_mqsend : (block : ℕ) → Kernel S → Proc → Call S
  sys_mqsend block k p =
      let bytes = memcpy_from_userspace k.mem p (reg p 6) (reg p 3) in
      pushed (store_block k block bytes) p (
        mq_push k.mqs (reg p 1)
          (record { id = 0; kind = reg p 2; size = reg p 3; data_ptr = block }))

  unfoldable pub sys_mqsend_returns : Kernel S → Proc → MqMsg → Call S
  sys_mqsend_returns k p msg = returns_word k p msg.id

  abbrev pub enters : Kernel S → Proc → Option Thread → Call S
  enters k p none = returns_word k p (neg16 einval)
  enters k p (some thread) = enters_mq k thread

  unfoldable pub sys_mqrecv : Kernel S → Proc → Call S
  sys_mqrecv k p =
      enters k p (if reg p 6 == 0 then mq_pop k.mqs (reg p 1) else mq_pop_nonblock k.mqs (reg p 1))

  unfoldable pub sys_mqrecv_returns : Kernel S → Proc → Option MqMsg → Call S
  sys_mqrecv_returns k p none = returns_word k p (neg16 einval)
  sys_mqrecv_returns k p (some res) =
      let size = min res.size (reg p 2) in
      let mem = memcpy_to_userspace k.mem p (reg p 3) (header res) in
      returns_word
        (record k {
          mem = memcpy_to_userspace mem p (add16 (reg p 3) 6) (take size (k.heap res.data_ptr));
        })
        p 0
