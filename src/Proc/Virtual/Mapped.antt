-- ===== src/Proc/Virtual/Mapped.antt =====
-- The page that a copy leaves in `mem_pages[0]` of the current process.
use pi_os.Common.{
  ℕ, zero, suc, ◌+◌, ◌-◌, ◌*◌, ◌/◌, ◌%◌, ◌≤◌, ◌<◌, ◌≡◌, refl, ap, ◌∙◌, arith, Bool, true, false,
  ◌&&◌, not, List, [], ◌∷◌, ◌==◌, if◌then◌else◌, get_or, set, length, get_or-set_self, Bool-cases,
  inl, inr, ==→eq, ==→ne, ne→==,
}
use pi_os.Common.Word.{add16}
use pi_os.Proc.{Proc}
use pi_os.Proc.Virtual.{phys_page, to_copy, illegal_page}

abbrev pub with_page_zero : Proc → (page : ℕ) → Proc
with_page_zero current page = record current {
  proc_state = record current.proc_state { mem_pages = set current.proc_state.mem_pages 0 page };
}

-- `map_page_zero`, apart from the register that it writes
abbrev pub map_page_zero : (scheduling_enabled int_no_proc_modify : Bool) → Proc → (page : ℕ) → Proc
map_page_zero scheduling_enabled int_no_proc_modify current page =
    if scheduling_enabled && not int_no_proc_modify then with_page_zero current page else current

-- What the loop of `memcpy_from_userspace` or `memcpy_to_userspace` writes to the current process.
unfoldable pub map_chunks :
    (fuel : ℕ)
    → (scheduling_enabled int_no_proc_modify : Bool) → (pages : List ℕ) → (ubuff size : ℕ) → Proc
    → Proc
map_chunks zero scheduling_enabled int_no_proc_modify pages ubuff size current = current
map_chunks (suc fuel) scheduling_enabled int_no_proc_modify pages ubuff size current =
    let n = to_copy ubuff size in
    let mapped =
      map_page_zero scheduling_enabled int_no_proc_modify current (phys_page ubuff pages) in
    let rest =
      map_chunks fuel scheduling_enabled int_no_proc_modify pages (add16 ubuff n) (size - n)
        mapped in
    if size == 0 then current else rest

-- What the whole of it writes there.
unfoldable pub map_copy :
    (scheduling_enabled int_no_proc_modify : Bool)
    → (pages : List ℕ) → (ubuff size : ℕ) → Proc
    → Proc
map_copy scheduling_enabled int_no_proc_modify pages ubuff size current =
    let p = map_chunks 17 scheduling_enabled int_no_proc_modify pages ubuff size current in
    map_page_zero scheduling_enabled int_no_proc_modify p
      (if scheduling_enabled then get_or p.proc_state.mem_pages 0 0 else illegal_page)

set_again : (pages : List ℕ) (a b : ℕ) → set (set pages 0 a) 0 b ≡ set pages 0 b
set_again [] a b = refl
set_again (x ∷ pages) a b = refl

with_page_zero_again :
    (p : Proc) (a b : ℕ) → with_page_zero (with_page_zero p a) b ≡ with_page_zero p b
with_page_zero_again p a b =
    ap (λ pages. record p { proc_state = record p.proc_state { mem_pages = pages } })
      (set_again p.proc_state.mem_pages a b)

map_chunks-nothing :
    (fuel : ℕ) (pages : List ℕ) (u size : ℕ) (p : Proc)
    → size ≡ 0
    → map_chunks fuel true false pages u size p ≡ p
unfolding map_chunks
map_chunks-nothing zero pages u size p h = refl
map_chunks-nothing (suc fuel) pages u size p h =
    let done : (size == 0) ≡ true = ground (arith, h) in rw done refl

map_chunks-with_page_zero :
    (fuel : ℕ) (pages : List ℕ) (u size : ℕ) (p : Proc)
    → u < 0x1_0000
    → 0 < size
    → u % 0x1000 + size ≤ 0x1000 * fuel
    → map_chunks fuel true false pages u size p
      ≡ with_page_zero p (phys_page (add16 u (size - 1)) pages)
unfolding map_chunks
map_chunks-with_page_zero zero pages u size p lt some_bytes enough =
    absurd (omega (arith, some_bytes, enough))
map_chunks-with_page_zero (suc fuel) pages u size p lt some_bytes enough =
    let n = to_copy u size in
    let mapped = with_page_zero p (phys_page u pages) in
    let some_left : (size == 0) ≡ false = ne→== size 0 (omega (arith, some_bytes)) in
    elim (Bool-cases (size - n == 0)) [
      | inl last ↦
          let e = ==→eq (size - n) 0 last in
          let same : u / 0x1000 ≡ add16 u (size - 1) / 0x1000 = omega (arith, lt, some_bytes, e) in
          rw some_left (
            map_chunks-nothing fuel pages (add16 u n) (size - n) mapped e
            ∙ ap (λ part. with_page_zero p (get_or pages part 0)) same)
      | inr more ↦
          let left : 0 < size - n = omega (arith, ==→ne (size - n) 0 more) in
          let at : add16 (add16 u n) (size - n - 1) ≡ add16 u (size - 1) =
            omega (arith, lt, left) in
          rw some_left (
            map_chunks-with_page_zero fuel pages (add16 u n) (size - n) mapped (omega arith) left
              (omega (arith, lt, left, enough))
            ∙ with_page_zero_again p (phys_page u pages)
                (phys_page (add16 (add16 u n) (size - n - 1)) pages)
            ∙ ap (λ v. with_page_zero p (phys_page v pages)) at)
    ]

-- When scheduling is enabled and the handler of interrupts does not run, a copy of at least one byte
-- from or to a process, of a word of bytes at most, leaves in `mem_pages[0]` of the current process
-- the page of the last byte of the copy, and not the page that was there, and changes nothing else
-- of the process.
pub map_copy-with_page_zero :
    (pages : List ℕ) (ubuff size : ℕ) (current : Proc)
    → ubuff < 0x1_0000
    → 0 < size
    → size < 0x1_0000
    → 0 < length current.proc_state.mem_pages
    → map_copy true false pages ubuff size current
      ≡ with_page_zero current (phys_page (add16 ubuff (size - 1)) pages)
unfolding map_copy
map_copy-with_page_zero pages ubuff size current lt some_bytes small has_pages =
    let page = phys_page (add16 ubuff (size - 1)) pages in
    ap (λ (p : Proc). with_page_zero p (get_or p.proc_state.mem_pages 0 0))
      (map_chunks-with_page_zero 17 pages ubuff size current lt some_bytes (omega (arith, small)))
    ∙ ap (with_page_zero (with_page_zero current page))
        (get_or-set_self current.proc_state.mem_pages 0 page 0 has_pages)
    ∙ with_page_zero_again current page page
