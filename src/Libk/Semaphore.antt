-- ===== src/Libk/Semaphore.antt =====
-- kernel/libk/con/semaphore.c: counting semaphores. The operations of atomic.c run with interrupts
-- off, so each is one step.
use pi_os.Common.{ℕ, ◌||◌, ltb, ◌==◌, if◌then◌else◌}
use pi_os.Common.Word.{add16, sub16, is_neg16}

abbrev pub semaphore_init : ℕ
semaphore_init = 0

abbrev pub semaphore_up : ℕ → ℕ
semaphore_up count = add16 count 1

-- How `semaphore_down` finds the count, with interrupts off.
pub data Down : Type 0 where
  -- `ASSERT(count >= 0)`
  panics : Down
  -- the thread sleeps, and tries again when it is woken
  sleeps : Down
  -- the count that is left
  takes : ℕ → Down

unfoldable pub semaphore_down : ℕ → Down
semaphore_down count =
    if is_neg16 count then panics else if count == 0 then sleeps else takes (sub16 count 1)

unfoldable pub semaphore_binary_up : ℕ → Down
semaphore_binary_up count =
    if ltb count 2 || is_neg16 count then takes (if count == 0 then 1 else count) else panics

-- The counts of the semaphores, by their addresses.
abbrev pub Counts : Type 0
Counts = ℕ → ℕ

abbrev pub update : Counts → ℕ → ℕ → Counts
update counts s c t = if t == s then c else counts t

-- `semaphore_up` of the semaphore at an address
abbrev pub up_at : Counts → ℕ → Counts
up_at counts s = update counts s (semaphore_up (counts s))
