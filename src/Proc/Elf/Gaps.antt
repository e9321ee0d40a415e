-- ===== src/Proc/Elf/Gaps.antt =====
-- `load_ph`: segments whose bytes are not all written.
use pi_os.Common.{
  get_or, sym, take, drop, ℕ, suc, ◌+◌, ◌-◌, ◌*◌, ◌/◌, ◌%◌, ◌≤◌, ◌<◌, ◌≡◌, refl, ap, ◌∙◌, arith,
  true, false, none, some, min, ltb, ◌==◌, ne→==, Option,
}
use pi_os.Common.Word.{add16, sub16}
use pi_os.Proc.Elf.{
  Loading, then_load, load_pages, load_segment, after_segment, zero_loop, seek_to, load_bss,
  load_one,
}
use pi_os.Proc.Virtual.Bytewise.{user_store, user_store-page}
use pi_os.Proc.Handler.Frame.{store_at_after}
use pi_os.Proc.Elf.Page.{
  length-next_bytes, next_bytes, bytes_left, page_filled, load_to_page-page_filled,
}
use pi_os.Proc.Elf.Segment.{paged, data_page, phys_page_to_load-paged_at}

then_load-some :
    (result : Option Loading) (rest : Loading → Option Loading)
    → ((st : Loading) → rest st ≡ some st)
    → then_load result rest ≡ result
then_load-some none rest same = refl
then_load-some (some st) rest same = same st

-- A segment of data of `n` bytes in the file that starts `r` bytes behind the start of page `q`, below
-- 16, with `r` less than `n`, and lies in this page, below the last byte of the address space, is
-- loaded without its last `r` bytes, when the file has all `n`: `load_segment` succeeds, the next
-- `n - r` bytes of the file are stored at its virtual addresses, through the page table as it is then,
-- the offset has moved on by `n - r`, and the page of the process has from `n` on, where the last
-- `r` bytes should begin, what it had.
pub load_segment_unaligned :
    (q r n : ℕ) (st : Loading)
    → q < 16
    → r < n
    → r + n ≤ 0x1000
    → 0x1000 * q + r + n < 0x1_0000
    → n ≤ bytes_left st
    → (st' : Loading) × (load_segment (0x1000 * q + r) n false st ≡ some st')
      × (st'.offset ≡ st.offset + (n - r))
      × (st'.mem
          ≡ user_store st.mem st'.mem_pages
              (0x1000 * q + r)
              (take (n - r) (drop st.offset st.contents)))
      × ((b : ℕ)
          → st'.mem (get_or st'.mem_pages q 0) (n + b) ≡ st.mem (get_or st'.mem_pages q 0) (n + b))
unfolding load_segment load_pages
load_segment_unaligned q r n st lt behind inside small enough =
    let local : (0x1000 * q + r) % 0x1000 ≡ r = omega (arith, behind, inside) in
    let end_addr : sub16 (add16 (0x1000 * q + r) n) 1 ≡ 0x1000 * q + r + n - 1 =
      omega (arith, behind, small) in
    let one : ltb 1 (add16 n 0xFFF / 0x1000) ≡ false = ground (arith, inside) in
    let none_left : add16 n 0xFFF / 0x1000 - 2 ≡ 0 = omega (arith, inside) in
    let last : min 0xFFF (sub16 (0x1000 * q + r + n - 1) (0x1000 * q + r)) ≡ n - 1 =
      omega (arith, behind, inside, small) in
    let read_bytes : n - 1 + 1 - r ≡ n - r = omega (arith, behind) in
    (
      page_filled (paged st q) (data_page st q) r (n - r),
      rw
          (
            local,
            end_addr,
            one,
            none_left,
            last,
            phys_page_to_load-paged_at st q r (omega (arith, behind, inside)),
          )
          (then_load-some _ _ (λ st'. refl)
            ∙ load_to_page-page_filled r (n - 1) (data_page st q) false (paged st q)
                (omega (arith, behind)) (omega (arith, inside, behind))
                (omega (arith, enough, behind)) (λ t. cc)
            ∙ ap (λ k. some (page_filled (paged st q) (data_page st q) r k)) read_bytes),
      refl,
      sym (
          user_store-page st.mem (paged st q).mem_pages (next_bytes st (n - r)) q r lt
            (omega (arith, length-next_bytes st (n - r), behind, inside))),
      λ b.
          store_at_after st.mem (data_page st q) r (n + b) (next_bytes st (n - r))
            (omega (arith, length-next_bytes st (n - r), behind)),
    )

zero_loop_done :
    (fuel end vaddr : ℕ) (st : Loading)
    → ltb vaddr end ≡ false
    → zero_loop (suc fuel) end vaddr st ≡ some st
unfolding zero_loop
zero_loop_done fuel end vaddr st h = rw h refl

-- The loop for the zeros starts behind the page.
load_bss-some :
    (q n m off kind flags : ℕ) (st : Loading)
    → 1 ≤ q
    → q < 15
    → 0 < n
    → n < m
    → m ≤ 0x1000
    → (flags % 2 == 1) ≡ false
    → load_bss
        (record {
          p_type = kind;
          p_offset = off;
          p_vaddr = 0x1000 * q;
          p_filesz = n;
          p_memsz = m;
          p_flags = flags;
        })
        (after_segment (0x1000 * q) n)
        st
      ≡ some st
unfolding load_bss
load_bss-some q n m off kind flags st above below some_bytes more inside data_flags =
    let has_bss : ltb n m ≡ true = ground (arith, more) in
    let end_addr : sub16 (add16 (0x1000 * q) n) 1 ≡ 0x1000 * q + n - 1 =
      omega (arith, some_bytes, more, inside, below) in
    let one : ltb 1 (add16 n 0xFFF / 0x1000) ≡ false = ground (arith, more, inside) in
    let next : add16 (0x1000 * q)
          (min (0x1000 - 0x1000 * q % 0x1000) (add16 (0x1000 * q + n - 1) 1))
        ≡ 0x1000 * q + 0x1000 =
      omega (arith, some_bytes, more, inside, above, below) in
    let at_end : ltb (0x1000 * q + 0x1000) (add16 (0x1000 * q) m) ≡ false =
      ground (arith, inside, below) in
    rw (data_flags, has_bss, end_addr, one, next)
      (zero_loop_done 16 (add16 (0x1000 * q) m) (0x1000 * q + 0x1000) st at_end)

-- Of a segment that is not executable, starts at one of the pages 1 to 14 and lies in this page, and
-- has at least one byte in the file and more in memory than in the file, no byte behind those of the
-- file is zeroed: `load_one` does just what `load_segment` does for the bytes of the file, from its
-- place in the file on.
pub load_one-load_segment :
    (q n m off kind flags : ℕ) (st : Loading)
    → 1 ≤ q
    → q < 15
    → 0 < n
    → n < m
    → m ≤ 0x1000
    → (flags % 2 == 1) ≡ false
    → load_one
        (record {
          p_type = kind;
          p_offset = off;
          p_vaddr = 0x1000 * q;
          p_filesz = n;
          p_memsz = m;
          p_flags = flags;
        })
        st
      ≡ load_segment (0x1000 * q) n false (seek_to st off)
unfolding load_one
load_one-load_segment q n m off kind flags st above below some_bytes more inside data_flags =
    let filled : (n == 0) ≡ false = ne→== n 0 (omega (arith, some_bytes)) in
    rw (filled, data_flags)
      (then_load-some (load_segment (0x1000 * q) n false (seek_to st off)) _ (λ st'.
        load_bss-some q n m off kind flags st' above below some_bytes more inside data_flags))
