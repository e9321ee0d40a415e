-- ===== src/Proc/Elf/Segment.antt =====
-- `load_ph`: a segment of data that starts at a page.
use pi_os.Common.{
  ℕ, zero, suc, ◌+◌, ◌-◌, ◌*◌, ◌/◌, ◌%◌, ◌≤◌, ◌<◌, ◌≡◌, refl, sym, ap, ap₂, ◌∙◌, arith, true, false,
  some, List, min, ltb, ◌==◌, take, drop, length, get_or, get_or-set_ne, take-drop-take, drop-take,
  drop-drop, Bool-cases, inl, inr, Option, subst,
}
use pi_os.Common.Word.{add16, sub16}
use pi_os.Proc.Virtual.{Memory, store_at}
use pi_os.Proc.Virtual.Bytewise.{user_store, user_store-split, user_store-page}
use pi_os.Proc.Elf.{
  Loading, with_page, then_load, phys_page_to_load, load_at, load_pages, load_segment,
}
use pi_os.Proc.Elf.Page.{
  next_bytes, bytes_left, page_filled, length-next_bytes, load_to_page-page_filled,
}

-- The tables after the look-up of page `q`, and its page.
abbrev pub paged : Loading → (q : ℕ) → Loading
paged st q =
    let (pages, next) = with_page st.mem_pages q st.first_free_page in
    record st { mem_pages = pages; first_free_page = next }

abbrev pub data_page : Loading → (q : ℕ) → ℕ
data_page st q = get_or (paged st q).mem_pages q 0

paged-entries :
    (st : Loading) (q i : ℕ) → i < q → get_or (paged st q).mem_pages i 0 ≡ get_or st.mem_pages i 0
paged-entries st q i lt = elim (Bool-cases (get_or st.mem_pages q 0 == 0xFF)) [
  | inl fresh ↦
      rw fresh
        (get_or-set_ne st.mem_pages q i st.first_free_page 0 (λ e. absurd (omega (arith, e, lt))))
  | inr there ↦ rw there refl
]

pub phys_page_to_load-paged_at :
    (st : Loading) (q r : ℕ)
    → r < 0x1000
    → phys_page_to_load st (0x1000 * q + r) false ≡ (data_page st q, paged st q)
unfolding phys_page_to_load
phys_page_to_load-paged_at st q r lt =
    let e : (0x1000 * q + r) / 0x1000 ≡ q = omega (arith, lt) in rw e refl

-- The state after the file's next `n` bytes were stored from page `q` on: they are where the tables
-- of the process, as they are then, put them, and the entries of the pages before `q` are as they
-- were.
pub record Stored (st : Loading) (q n : ℕ) (st' : Loading) : Type 0 where
  pub same : st'.contents ≡ st.contents
  pub moved : st'.offset ≡ st.offset + n
  pub memory : st'.mem ≡ user_store st.mem st'.mem_pages (0x1000 * q) (next_bytes st n)
  pub entries : (i : ℕ) → i < q → get_or st'.mem_pages i 0 ≡ get_or st.mem_pages i 0

abbrev full_page : Loading → (q n : ℕ) → Loading
full_page st q n = page_filled (paged st q) (data_page st q) 0 n

load_at-full_page :
    (st : Loading) (q e : ℕ)
    → e < 0x1000
    → e + 1 ≤ bytes_left st
    → load_at 0 e (0x1000 * q) false st ≡ some (full_page st q (e + 1))
load_at-full_page st q e small enough =
    let n : e + 1 - 0 ≡ e + 1 = omega arith in
    let start : 0x1000 * q ≡ 0x1000 * q + 0 = omega arith in
    let page : phys_page_to_load st (0x1000 * q) false ≡ (data_page st q, paged st q) =
      ap (λ u. phys_page_to_load st u false) start
      ∙ phys_page_to_load-paged_at st q 0 (omega arith) in
    rw page (
      load_to_page-page_filled 0 e (data_page st q) false (paged st q) (omega arith) small
        (omega (arith, enough)) (λ t. cc)
      ∙ ap (λ k. some (full_page st q k)) n)

page_store :
    (mem : Memory) (pages : List ℕ) (q : ℕ) (xs : List ℕ)
    → q < 16
    → length xs ≤ 0x1000
    → user_store mem pages (0x1000 * q) xs ≡ store_at mem (get_or pages q 0) 0 xs
page_store mem pages q xs lt fits =
    let e : 0x1000 * q ≡ 0x1000 * q + 0 = omega arith in
    ap (λ u. user_store mem pages u xs) e
    ∙ user_store-page mem pages xs q 0 lt (omega (arith, fits))

full_page-Stored : (st : Loading) (q n : ℕ) → q < 16 → n ≤ 0x1000 → Stored st q n (full_page st q n)
full_page-Stored st q n lt le = record {
  same = refl;
  moved = refl;
  memory = sym (
      page_store st.mem (paged st q).mem_pages q (next_bytes st n) lt
        (omega (arith, le, length-next_bytes st n)));
  entries = paged-entries st q;
}

-- What is stored after a full page is stored behind it.
full_page-Stored_after :
    (st st' : Loading) (q n : ℕ)
    → q < 15
    → 0x1000 + n ≤ bytes_left st
    → Stored (full_page st q 0x1000) (q + 1) n st'
    → Stored st q (0x1000 + n) st'
full_page-Stored_after st st' q n lt enough rest =
    let bytes = next_bytes st (0x1000 + n) in
    let next : add16 (0x1000 * q) 0x1000 ≡ 0x1000 * (q + 1) = omega (arith, lt) in
    let whole : length bytes ≡ 0x1000 + n =
      omega (arith, length-next_bytes st (0x1000 + n), enough) in
    let first : take 0x1000 bytes ≡ next_bytes st 0x1000 =
      take-drop-take 0x1000 0 (0x1000 + n) (drop st.offset st.contents) (omega arith) in
    let others : drop 0x1000 bytes ≡ take n (drop (st.offset + 0x1000) st.contents) =
      drop-take 0x1000 n (drop st.offset st.contents)
      ∙ ap (take n) (drop-drop st.offset 0x1000 st.contents) in
    let page : store_at st.mem (data_page st q) 0 (next_bytes st 0x1000)
        ≡ user_store st.mem st'.mem_pages (0x1000 * q) (take 0x1000 bytes) =
      ap (λ p. store_at st.mem p 0 (next_bytes st 0x1000)) (sym (rest.entries q (omega arith)))
      ∙ sym (
          page_store st.mem st'.mem_pages q (next_bytes st 0x1000) (omega (arith, lt))
            (omega (arith, length-next_bytes st 0x1000)))
      ∙ ap (user_store st.mem st'.mem_pages (0x1000 * q)) (sym first) in
    record {
      same = rest.same;
      moved =
          rest.moved
          ∙ (let e : st.offset + 0x1000 + n ≡ st.offset + (0x1000 + n) = omega arith in e);
      memory =
          rest.memory
          ∙ ap₂
              (λ m u. user_store m st'.mem_pages u (take n (drop (st.offset + 0x1000) st.contents)))
              page (sym next)
          ∙ ap
              (user_store (user_store st.mem st'.mem_pages (0x1000 * q) (take 0x1000 bytes))
                st'.mem_pages (add16 (0x1000 * q) 0x1000))
              (sym others)
          ∙ sym (
              user_store-split st.mem st'.mem_pages 0x1000 (0x1000 * q) bytes (omega (arith, lt))
                (omega (arith, whole)));
      entries = λ i h. rest.entries i (omega (arith, h)) ∙ paged-entries st q i h;
    }

-- A state that `load_pages` or `load_segment` ends in.
abbrev LoadedFrom : Option Loading → Loading → (q n : ℕ) → Type 0
LoadedFrom result st q n = (st' : Loading) × (result ≡ some st') × Stored st q n st'

load_first :
    (st : Loading) (q n : ℕ) (rest : Loading → Option Loading)
    → q < 15
    → 0x1000 < n
    → n ≤ bytes_left st
    → LoadedFrom (rest (full_page st q 0x1000)) (full_page st q 0x1000) (q + 1) (n - 0x1000)
    → LoadedFrom (then_load (load_at 0 0xFFF (0x1000 * q) false st) rest) st q n
load_first st q n rest lt more enough (st', e, stored) =
    let sum : 0x1000 + (n - 0x1000) ≡ n = omega (arith, more) in
    (
      st',
      rw (load_at-full_page st q 0xFFF (omega arith) (omega (arith, enough, more))) e,
      subst (λ k. Stored st q k st') sum
          (full_page-Stored_after st st' q (n - 0x1000) lt (omega (arith, enough, sum)) stored),
    )

load_last :
    (st : Loading) (q n e : ℕ)
    → q < 16
    → 0 < n
    → n ≤ 0x1000
    → n ≤ bytes_left st
    → e + 1 ≡ n
    → LoadedFrom (load_at 0 e (0x1000 * q) false st) st q n
load_last st q n e lt some_bytes le enough last = (
  full_page st q n,
  load_at-full_page st q e (omega (arith, last, le)) (omega (arith, last, enough))
      ∙ ap (λ k. some (full_page st q k)) last,
  full_page-Stored st q n lt le,
)

load_pages-Stored :
    (full end_addr q n : ℕ) (st : Loading)
    → 0x1000 * full < n
    → n ≤ 0x1000 * full + 0x1000
    → 0x1000 * q + n ≡ end_addr + 1
    → end_addr < 0x1_0000
    → n ≤ bytes_left st
    → LoadedFrom (load_pages full end_addr (0x1000 * q) false true st) st q n
unfolding load_pages
load_pages-Stored zero end_addr q n st some_left short e small enough =
    load_last st q n (end_addr % 0x1000) (omega (arith, e, small, some_left))
      (omega (arith, some_left)) (omega (arith, short)) enough (omega (arith, some_left, short, e))
load_pages-Stored (suc full) end_addr q n st some_left short e small enough =
    let next : add16 (0x1000 * q) 0x1000 ≡ 0x1000 * (q + 1) = omega (arith, e, small, some_left) in
    load_first st q n (load_pages full end_addr (add16 (0x1000 * q) 0x1000) false true)
      (omega (arith, e, small, some_left)) (omega (arith, some_left)) enough
      (rw next (
        load_pages-Stored full end_addr (q + 1) (n - 0x1000) (full_page st q 0x1000)
          (omega (arith, some_left)) (omega (arith, short)) (omega (arith, e, some_left)) small
          (omega (arith, enough, some_left))))

-- A segment of data that starts at a page and ends below the last address, of at most 0xF000 bytes
-- in the file and at least one, is loaded: the next bytes of the file are stored at its virtual
-- addresses, through the page table as it is then, the offset moves on by them, and the pages
-- before it are mapped as they were.
pub load_segment-Stored :
    (q n : ℕ) (st : Loading)
    → 0 < n
    → n ≤ 0xF000
    → 0x1000 * q + n < 0x1_0000
    → n ≤ bytes_left st
    → (st' : Loading) × (load_segment (0x1000 * q) n false st ≡ some st') × Stored st q n st'
unfolding load_segment load_pages
load_segment-Stored q n st some_bytes le small enough =
    let local : 0x1000 * q % 0x1000 ≡ 0 = omega arith in
    let end_addr : sub16 (add16 (0x1000 * q) n) 1 ≡ 0x1000 * q + n - 1 =
      omega (arith, some_bytes, small) in
    let pages : add16 n 0xFFF / 0x1000 ≡ (n + 0xFFF) / 0x1000 = omega (arith, le) in
    let first : sub16 (0x1000 * q + n - 1) (0x1000 * q) ≡ n - 1 =
      omega (arith, some_bytes, small) in
    elim (Bool-cases (ltb 1 ((n + 0xFFF) / 0x1000))) [
      | inl many ↦
          let more : 0x1000 < n = ground (arith, many) in
          let whole : min 0xFFF (n - 1) ≡ 0xFFF = omega (arith, more) in
          let next : add16 (0x1000 * q) (min 0x1000 (add16 (0x1000 * q + n - 1) 1))
              ≡ 0x1000 * (q + 1) =
            omega (arith, more, small) in
          rw (local, end_addr, pages, first, many, whole, next)
            (load_first st q n _ (omega (arith, more, small)) more enough (
              load_pages-Stored ((n + 0xFFF) / 0x1000 - 2) (0x1000 * q + n - 1) (q + 1) (n - 0x1000)
                (full_page st q 0x1000) (omega (arith, more)) (omega (arith, more))
                (omega (arith, more)) (omega (arith, small)) (omega (arith, enough, more))))
      | inr one ↦
          let short : n ≤ 0x1000 = ground (arith, one) in
          let none_left : (n + 0xFFF) / 0x1000 - 2 ≡ 0 = omega (arith, short) in
          let part : min 0xFFF (n - 1) ≡ n - 1 = omega (arith, short) in
          rw (local, end_addr, pages, first, one, none_left, part)
            (alone (
              load_last st q n (n - 1) (omega (arith, small, some_bytes)) some_bytes short enough
                (omega (arith, some_bytes))))
    ]
  where
    alone :
        {result : Option Loading} {st : Loading} {q n : ℕ}
        → LoadedFrom result st q n
        → LoadedFrom (then_load result (λ st'. some st')) st q n
    alone (st', e, stored) = (st', rw e refl, stored)
