-- ===== src/Proc/Blocking.antt =====
-- kernel/libk/con/semaphore.c: how `semaphore_down` puts the current process to sleep, and how the
-- scheduler wakes it.
use pi_os.Common.{ℕ, ◌<◌, ◌≡◌, ◌⊎◌, inl, inr, arith, none, some, ◌==◌, if◌then◌else◌}
use pi_os.Libk.Semaphore.{Counts}
use pi_os.Proc.{Proc, runnable, blocked, syscall, syscall_blocked}
use pi_os.Proc.Sched.{picked, wake_or_pass}

unfoldable pub block_current : Proc → ℕ → Proc
block_current p s = record p {
  state = if p.state == syscall then syscall_blocked else blocked;
  sema_blocked = some s;
}

-- A process that ran and slept on a semaphore is taken by the scheduler once the count is positive,
-- in the state that it slept in and waiting for nothing.
pub wake_or_pass-block_current :
    (p : Proc) (counts : Counts) (s : ℕ)
    → (p.state ≡ runnable) ⊎ (p.state ≡ syscall)
    → 0 < counts s
    → counts s < 0x8000
    → wake_or_pass counts (block_current p s) ≡ (picked, record p { sema_blocked = none })
unfolding block_current wake_or_pass
wake_or_pass-block_current p counts s (inl e) lo hi = ground (arith, e)
wake_or_pass-block_current p counts s (inr e) lo hi = ground (arith, e)
