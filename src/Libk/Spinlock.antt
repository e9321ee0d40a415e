-- ===== src/Libk/Spinlock.antt =====
-- kernel/libk/con/spinlock.c: spinlocks that remember their owner.
use pi_os.Common.{ℕ, Option, none, some, not, ◌||◌, ◌==◌, if◌then◌else◌}
use pi_os.Common.Word.{neg16}

-- `struct spinlock`
pub record Spinlock : Type 0 where
  pub locked : ℕ
  pub owner : ℕ

unfoldable pub spinlock_init : Spinlock
spinlock_init = record { locked = 0; owner = neg16 1 }

-- One round of the loop, by the process `pid`: the lock is taken, or the process yields and tries
-- again.
unfoldable pub spinlock_lock : (pid : ℕ) → Spinlock → Option Spinlock
spinlock_lock pid sl = if sl.locked == 0 then some (record { locked = 1; owner = pid }) else none

unfoldable pub spinlock_unlock : (pid : ℕ) → Spinlock → ℕ × Spinlock
spinlock_unlock pid sl =
    if not (pid == sl.owner) || (sl.locked == 0)
    then (neg16 1, sl)
    else (0, record sl { locked = 0 })
