-- ===== src/Proc/Elf.antt =====
-- kernel/proc/elf.c: the loader. A read of the file delivers the bytes at its offset, as many as
-- there are, and moves the offset on by them, as a read of a regular file does. `none` is a failed
-- `ASSERT`. A `char` is a byte without sign.
pub mod Page
pub mod Segment
pub mod Gaps
mod Tests
use pi_os.Common.{
  ℕ, zero, suc, ◌+◌, ◌-◌, ◌*◌, ◌/◌, ◌%◌, Bool, true, false, ◌&&◌, ◌||◌, not, Option, none, some,
  List, [], ◌∷◌, ◌++◌, min, ltb, leb, ◌==◌, if◌then◌else◌, length, get_or, set, take, drop,
  replicate, max,
}
use pi_os.Common.Word.{add16, sub16, is_neg16}
use pi_os.Libc.Strings.{CString, strcpy}
use pi_os.Proc.{ProcState, Proc}
use pi_os.Proc.Threads.{Pool, sched_init_user_thread}
use pi_os.Proc.Virtual.{Memory, page_size, store_at}

abbrev pub load_buff : ℕ
load_buff = 0x100

abbrev pub header_size : ℕ
header_size = 56

abbrev pub ph_size : ℕ
ph_size = 32

-- `GET_U8` and `GET_U16`
abbrev pub get_u8 : List ℕ → ℕ → ℕ
get_u8 buff off = get_or buff off 0

abbrev pub get_u16 : List ℕ → ℕ → ℕ
get_u16 buff off = get_or buff (off + 1) 0 * 256 + get_or buff off 0

-- What the loader reads and writes: the file, the memory, the page tables of the new process, and the
-- free pages.
pub record Loading : Type 0 where
  pub contents : List ℕ
  pub offset : ℕ
  pub mem : Memory
  pub mem_pages : List ℕ
  pub prog_pages : List ℕ
  pub first_free_page : ℕ
  pub first_free_prog_page : ℕ

abbrev pub read : Loading → ℕ → List ℕ × Loading
read st size =
    let bytes = take size (drop st.offset st.contents) in
    (bytes, record st { offset = st.offset + length bytes })

-- `load_into_userspace` and `load_into_userspace_program`
abbrev pub load_into : (prog : Bool) → (page : ℕ) → List ℕ → (offset : ℕ) → Loading → Option Loading
load_into prog page bytes offset st =
    if leb (offset + length bytes) page_size && (not prog || (length bytes % 4 == 0))
    then some (record st { mem = store_at st.mem page offset bytes })
    else none

abbrev pub then_load : Option Loading → (Loading → Option Loading) → Option Loading
then_load none rest = none
then_load (some st) rest = rest st

-- The loop of `load_to_page`. A round reads a byte at least, or the `ASSERT` fails.
unfoldable pub load_loop :
    (fuel : ℕ) → (end_addr page : ℕ) → (prog : Bool) → (m_addr : ℕ) → Loading → Option Loading
load_loop zero end_addr page prog m_addr st = none
load_loop (suc fuel) end_addr page prog m_addr st =
    let (bytes, st') = read st (min load_buff (end_addr - m_addr + 1)) in
    let rest =
      then_load (load_into prog page bytes m_addr st')
        (load_loop fuel end_addr page prog (m_addr + length bytes)) in
    if leb m_addr end_addr then (if length bytes == 0 then none else rest) else some st

unfoldable pub load_to_page : (off end_addr page : ℕ) → (prog : Bool) → Loading → Option Loading
load_to_page off end_addr page prog st =
    if ltb end_addr page_size then load_loop (page_size + 1) end_addr page prog off st else none

-- The loop of `zero_page`: a word of two bytes is written at every address. What the last write
-- puts behind the end of the page, at 0x1000, is not in the page.
abbrev pub zero_words : Memory → (page off len : ℕ) → Memory
zero_words mem page off zero = mem
zero_words mem page off (suc len) =
    zero_words (store_at mem page off (0 ∷ 0 ∷ [])) page (off + 1) len

unfoldable pub zero_page : (off len page : ℕ) → Loading → Option Loading
zero_page off len page st =
    if leb (off + len) page_size
    then some (record st { mem = zero_words st.mem page off len })
    else none

-- A page table and the next free page, with a page at the index if there was none.
abbrev pub with_page : List ℕ → (i next : ℕ) → List ℕ × ℕ
with_page pages i next =
    if get_or pages i 0 == 0xFF then (set pages i next, add16 next 1) else (pages, next)

-- The page of data memory, and the tables after it.
unfoldable pub phys_page_to_load : Loading → (vaddr : ℕ) → (prog : Bool) → ℕ × Loading
phys_page_to_load st vaddr true =
    let virt_page = vaddr / page_size in
    let (pages, next) = with_page st.prog_pages (virt_page / 2) st.first_free_prog_page in
    (
      add16 (get_or pages (virt_page / 2) 0 * 2 + virt_page % 2) 0x1000,
      record st { prog_pages = pages; first_free_prog_page = next },
    )
phys_page_to_load st vaddr false =
    let virt_page = vaddr / page_size in
    let (pages, next) = with_page st.mem_pages virt_page st.first_free_page in
    (get_or pages virt_page 0, record st { mem_pages = pages; first_free_page = next })

-- A call of `load_to_page` with the page of the virtual address.
abbrev pub load_at : (off end_addr vaddr : ℕ) → (prog : Bool) → Loading → Option Loading
load_at off end_addr vaddr prog st =
    let (page, st') = phys_page_to_load st vaddr prog in load_to_page off end_addr page prog st'

-- `for (int j = 0; j < pages - 2; j++)`, and the last page
unfoldable pub load_pages :
    (full : ℕ) → (end_addr vaddr : ℕ) → (prog more : Bool) → Loading → Option Loading
load_pages zero end_addr vaddr prog more st =
    if more then load_at 0 (end_addr % page_size) vaddr prog st else some st
load_pages (suc full) end_addr vaddr prog more st =
    then_load (load_at 0 (page_size - 1) vaddr prog st)
      (load_pages full end_addr (add16 vaddr page_size) prog more)

-- The bytes of a segment that are in the file: `mem_size` is not 0.
unfoldable pub load_segment : (vaddr mem_size : ℕ) → (prog : Bool) → Loading → Option Loading
load_segment vaddr mem_size prog st =
    let end_addr = sub16 (add16 vaddr mem_size) 1 in
    let pages = add16 mem_size (page_size - 1) / page_size in
    let next = add16 vaddr (min (page_size - vaddr % page_size) (add16 end_addr 1)) in
    then_load
      (load_at (vaddr % page_size) (min (page_size - 1) (sub16 end_addr vaddr)) vaddr prog st)
      (load_pages (pages - 2) end_addr next prog (ltb 1 pages))

-- Where `vaddr` is after these bytes.
abbrev pub after_segment : (vaddr mem_size : ℕ) → ℕ
after_segment vaddr mem_size =
    let end_addr = sub16 (add16 vaddr mem_size) 1 in
    let pages = add16 mem_size (page_size - 1) / page_size in
    let next = add16 vaddr (min (page_size - vaddr % page_size) (add16 end_addr 1)) in
    if ltb 1 pages
    then add16 (add16 next ((pages - 2) * page_size)) (end_addr % page_size + 1)
    else next

-- The zeros behind them, up to `end`; a round ends at the end of a page, or at `end`.
unfoldable pub zero_loop : (fuel : ℕ) → (end vaddr : ℕ) → Loading → Option Loading
zero_loop zero end vaddr st = none
zero_loop (suc fuel) end vaddr st =
    let size : ℕ = min (page_size - vaddr % page_size) (sub16 end vaddr) in
    let (page, st') = phys_page_to_load st vaddr false in
    let rest =
      then_load (zero_page (vaddr % page_size) size page st')
        (zero_loop fuel end (add16 vaddr size)) in
    if ltb vaddr end then rest else some st

abbrev pub pt_load : ℕ
pt_load = 1

-- `PH_OFF_TYPE`, …, `PH_OFF_FLAGS`: the fields of a program header that the loader reads.
pub record ProgramHeader : Type 0 where
  pub p_type : ℕ
  pub p_offset : ℕ
  pub p_vaddr : ℕ
  pub p_filesz : ℕ
  pub p_memsz : ℕ
  pub p_flags : ℕ

abbrev pub program_header : List ℕ → ProgramHeader
program_header ph = record {
  p_type = get_u16 ph 0;
  p_offset = get_u16 ph 4;
  p_vaddr = get_u16 ph 8;
  p_filesz = get_u16 ph 16;
  p_memsz = get_u16 ph 20;
  p_flags = get_u16 ph 24;
}

-- `(flags & PF_X) != 0`
abbrev pub is_prog : ProgramHeader → Bool
is_prog ph = ph.p_flags % 2 == 1

-- `vfs_seek` with `SEEK_SET`, whose error nobody reads.
abbrev pub seek_to : Loading → (off : ℕ) → Loading
seek_to st off = if is_neg16 off then st else record st { offset = off }

-- 17 rounds are enough for the zeros: all but the first start at a page.
unfoldable pub load_bss : ProgramHeader → (vaddr : ℕ) → Loading → Option Loading
load_bss ph vaddr st =
    if not (is_prog ph) && ltb ph.p_filesz ph.p_memsz
    then zero_loop 17 (add16 ph.p_vaddr ph.p_memsz) vaddr st
    else some st

unfoldable pub load_one : ProgramHeader → Loading → Option Loading
load_one ph st =
    if ph.p_filesz == 0
    then load_bss ph ph.p_vaddr (seek_to st ph.p_offset)
    else then_load (load_segment ph.p_vaddr ph.p_filesz (is_prog ph) (seek_to st ph.p_offset))
        (load_bss ph (after_segment ph.p_vaddr ph.p_filesz))

-- `load_brk = MAX(load_brk, vaddr+zero_mem_size)`
abbrev pub next_brk : ProgramHeader → (load_brk : ℕ) → ℕ
next_brk ph load_brk =
    if (ph.p_type == pt_load) && (not (is_prog ph) && not (ph.p_memsz == 0))
    then max load_brk (add16 ph.p_vaddr ph.p_memsz)
    else load_brk

-- The rounds of `load_ph` that are left, the header's buffer, which a short read fills in part, and
-- `load_brk`.
unfoldable pub load_ph :
    (phnum : ℕ) → (ph : List ℕ) → (load_brk : ℕ) → Loading → Option (ℕ × Loading)
load_ph zero ph load_brk st = some (load_brk, st)
load_ph (suc phnum) ph load_brk st =
    let (bytes, st') = read st ph_size in
    let ph' = bytes ++ drop (length bytes) ph in
    let header = program_header ph' in
    next_ph st'.offset (load_ph phnum ph' (next_brk header load_brk))
      (if header.p_type == pt_load then load_one header st' else some st')
  where
    next_ph : ℕ → (Loading → Option (ℕ × Loading)) → Option Loading → Option (ℕ × Loading)
    next_ph off rest none = none
    next_ph off rest (some st) = rest (seek_to st off)

abbrev pub em_pcpu : ℕ
em_pcpu = 0x0888

-- The tests of `elf_load` on what it has read: 0x7F, E, L, F, the class, the order of bytes, the
-- version, the type and the machine.
abbrev pub is_executable : List ℕ → Bool
is_executable buff =
    (length buff == header_size)
    && (get_u8 buff 0 == 0x7F)
    && (get_u8 buff 1 == 69)
    && (get_u8 buff 2 == 76)
    && (get_u8 buff 3 == 70)
    && (get_u8 buff 4 == 1)
    && (get_u8 buff 5 == 1)
    && (get_u8 buff 6 == 1)
    && (get_u16 buff 16 == 2)
    && (get_u16 buff 18 == em_pcpu)

-- The process and the pages after `load_ph`.
abbrev pub add_process :
    Proc → (i : ℕ) → Pool → Option (ℕ × Loading) → Option (Option Proc × (Pool × Loading))
add_process p i pool none = none
add_process p i pool (some (load_brk, st)) =
    let p' = record p {
      proc_state = record p.proc_state { mem_pages = st.mem_pages; prog_pages = st.prog_pages };
      load_brk = load_brk;
    } in
    some (
      some p',
      (record pool { procs = set pool.procs i p'; first_free_page = st.first_free_page }, st),
    )

-- `none` is a failed `ASSERT`; no process is `NULL`. The page tables and the free page of the argument
-- are those of no process yet. `ph_buff` holds what the last load left there.
unfoldable pub elf_load :
    (fresh : Proc)
    → (name : CString) → (ph_buff : List ℕ) → Pool
    → Loading
    → Option (Option Proc × (Pool × Loading))
elf_load fresh name ph_buff pool st =
    let (buff, st') = read st header_size in
    let (p, pool') = sched_init_user_thread fresh pool in
    let p' = record p {
      name = strcpy p.name name;
      proc_state = record p.proc_state { pc = get_u16 buff 24 };
    } in
    let opened = record st' {
      mem_pages = p.proc_state.mem_pages;
      prog_pages = p.proc_state.prog_pages;
      first_free_page = pool'.first_free_page;
    } in
    if is_executable buff
    then add_process p' (length pool.procs) pool'
        (load_ph (get_u16 buff 44) ph_buff 0 (seek_to opened (get_u16 buff 28)))
    else some (none, (pool, st'))
