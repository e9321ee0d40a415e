-- ===== src/Proc/Virtual.antt =====
-- kernel/proc/virtual.c: copies between the kernel and the memory of a process, one page at a time.
-- The physical memory is a function of the page and the address in it; the page that is mapped at
-- address 0 is an argument of each access. What `map_page_zero` writes to the current process, which
-- the copies do not read, is in Mapped.
pub mod Bytewise
pub mod Mapped
mod Tests
use pi_os.Common.{
  ℕ, zero, suc, ◌+◌, ◌-◌, ◌/◌, ◌%◌, Bool, ◌&&◌, ◌||◌, Option, none, some, List, [], ◌∷◌, ◌++◌, min,
  ◌==◌, if◌then◌else◌, get_or, take, drop, length,
}
use pi_os.Common.Word.{add16}
use pi_os.Proc.{Proc, syscall, syscall_blocked}
use pi_os.Proc.Signals.{proc_by_pid}

abbrev pub page_size : ℕ
page_size = 0x1000

-- `VIRT_PAGE_PART` and `VIRT_LOCAL_PART`
abbrev pub page_part : ℕ → ℕ
page_part addr = addr / page_size

abbrev pub local_part : ℕ → ℕ
local_part addr = addr % page_size

abbrev pub phys_page : ℕ → List ℕ → ℕ
phys_page addr page_table = get_or page_table (page_part addr) 0

abbrev pub Memory : Type 0
Memory = (page addr : ℕ) → ℕ

abbrev pub poke : Memory → (page addr value : ℕ) → Memory
poke mem page addr value p a = if (p == page) && (a == addr) then value else mem p a

-- `memcpy` of `n` bytes from an address in a page, and of a list to one
unfoldable pub bytes_at : Memory → (page addr n : ℕ) → List ℕ
bytes_at mem page addr zero = []
bytes_at mem page addr (suc n) = mem page addr ∷ bytes_at mem page (addr + 1) n

unfoldable pub store_at : Memory → (page addr : ℕ) → List ℕ → Memory
store_at mem page addr [] = mem
store_at mem page addr (x ∷ xs) = store_at (poke mem page addr x) page (addr + 1) xs

abbrev pub to_copy : (ubuff size : ℕ) → ℕ
to_copy ubuff size = min size (page_size - local_part ubuff)

-- The loops, with fuel: what arrives at `kbuff`, and the memory after storing `kbuff`.
unfoldable pub copy_from : (fuel : ℕ) → Memory → (pages : List ℕ) → (ubuff size : ℕ) → List ℕ
copy_from zero mem pages ubuff size = []
copy_from (suc fuel) mem pages ubuff size =
    let n = to_copy ubuff size in
    let rest = copy_from fuel mem pages (add16 ubuff n) (size - n) in
    if size == 0 then [] else bytes_at mem (phys_page ubuff pages) (local_part ubuff) n ++ rest

unfoldable pub copy_to : (fuel : ℕ) → Memory → (pages : List ℕ) → (ubuff : ℕ) → List ℕ → Memory
copy_to zero mem pages ubuff kbuff = mem
copy_to (suc fuel) mem pages ubuff kbuff =
    let n = to_copy ubuff (length kbuff) in
    let stored = store_at mem (phys_page ubuff pages) (local_part ubuff) (take n kbuff) in
    let rest = copy_to fuel stored pages (add16 ubuff n) (drop n kbuff) in
    if length kbuff == 0 then mem else rest

-- A word of bytes lies in at most 17 pages.
unfoldable pub memcpy_from_userspace : Memory → Proc → (ubuff size : ℕ) → List ℕ
memcpy_from_userspace mem proc ubuff size = copy_from 17 mem proc.syscall_state.mem_pages ubuff size

unfoldable pub memcpy_to_userspace : Memory → Proc → (ubuff : ℕ) → (kbuff : List ℕ) → Memory
memcpy_to_userspace mem proc ubuff kbuff = copy_to 17 mem proc.syscall_state.mem_pages ubuff kbuff

abbrev pub illegal_page : ℕ
illegal_page = 0

abbrev pub page_of_proc : (addr : ℕ) → Option (ℕ × Proc) → ℕ
page_of_proc addr none = illegal_page
page_of_proc addr (some (i, proc)) =
    if (proc.state == syscall) || (proc.state == syscall_blocked)
    then phys_page addr proc.syscall_state.mem_pages
    else phys_page addr proc.proc_state.mem_pages

unfoldable pub get_proc_addr_page : List Proc → (pid addr : ℕ) → ℕ
get_proc_addr_page procs pid addr =
    if pid == 0 then 0x200 + page_part addr else page_of_proc addr (proc_by_pid procs pid)
