-- ===== src/Proc/Elf/Page.antt =====
-- `load_to_page` puts the next bytes of the file into the page, or its `ASSERT` fails.
use pi_os.Common.{
  ℕ, zero, suc, ◌+◌, ◌-◌, ◌%◌, ◌≤◌, ◌<◌, ◌≡◌, refl, sym, ap, ap₂, ◌∙◌, arith, Bool, true, false,
  some, List, [], ◌∷◌, ◌++◌, min, leb, ltb, ◌==◌, take, drop, length, length-take, length-drop,
  take-split, drop-drop, ne→==,
}
use pi_os.Proc.Virtual.{Memory, poke, store_at}
use pi_os.Proc.Elf.{Loading, load_into, load_loop, load_to_page}

store_at-append :
    (mem : Memory) (page a : ℕ) (xs ys : List ℕ)
    → store_at (store_at mem page a xs) page (a + length xs) ys ≡ store_at mem page a (xs ++ ys)
unfolding store_at
store_at-append mem page a [] ys =
    let e : a + 0 ≡ a = omega arith in ap (λ b. store_at mem page b ys) e
store_at-append mem page a (x ∷ xs) ys =
    let e : a + suc (length xs) ≡ a + 1 + length xs = omega arith in
    ap (λ b. store_at (store_at (poke mem page a x) page (a + 1) xs) page b ys) e
    ∙ store_at-append (poke mem page a x) page (a + 1) xs ys

-- The file's bytes that a read has before it.
abbrev pub next_bytes : Loading → ℕ → List ℕ
next_bytes st n = take n (drop st.offset st.contents)

abbrev pub bytes_left : Loading → ℕ
bytes_left st = length st.contents - st.offset

-- The next `n` bytes of the file are in the page, from `m_addr` on.
abbrev pub page_filled : Loading → (page m_addr n : ℕ) → Loading
page_filled st page m_addr n = record st {
  offset = st.offset + n;
  mem = store_at st.mem page m_addr (next_bytes st n);
}

pub length-next_bytes : (st : Loading) (n : ℕ) → length (next_bytes st n) ≡ min n (bytes_left st)
length-next_bytes st n =
    omega (arith, length-take n (drop st.offset st.contents), length-drop st.offset st.contents)

page_filled-split :
    (st : Loading) (page m k r n : ℕ)
    → k ≤ bytes_left st
    → k + r ≡ n
    → page_filled (page_filled st page m k) page (m + k) r ≡ page_filled st page m n
page_filled-split st page m k r n le e =
    let whole : length (next_bytes st k) ≡ k = omega (arith, length-next_bytes st k, le) in
    let moved : st.offset + k + r ≡ st.offset + n = omega (arith, e) in
    let stored : store_at (store_at st.mem page m (next_bytes st k)) page (m + k)
          (take r (drop (st.offset + k) st.contents))
        ≡ store_at st.mem page m (next_bytes st n) =
      ap₂ (λ b ys. store_at (store_at st.mem page m (next_bytes st k)) page b ys)
        (ap (λ l. m + l) (sym whole)) (ap (take r) (sym (drop-drop st.offset k st.contents)))
      ∙ store_at-append st.mem page m (next_bytes st k)
          (take r (drop k (drop st.offset st.contents)))
      ∙ ap (store_at st.mem page m)
          (take-split k r (drop st.offset st.contents) ∙ ap (next_bytes st) e) in
    ap₂ (λ o w. record st { offset = o; mem = w }) moved stored

load_into-some :
    (prog : Bool) (page m : ℕ) (bytes : List ℕ) (st : Loading)
    → m + length bytes ≤ 0x1000
    → (prog ≡ true → length bytes % 4 ≡ 0)
    → load_into prog page bytes m st ≡ some (record st { mem = store_at st.mem page m bytes })
load_into-some false page m bytes st fits aligned =
    let ok : leb (m + length bytes) 0x1000 ≡ true = ground (arith, fits) in rw ok refl
load_into-some true page m bytes st fits aligned =
    let ok : leb (m + length bytes) 0x1000 ≡ true = ground (arith, fits) in
    rw (ok, aligned refl) refl

load_loop-filled :
    (fuel end_addr page : ℕ) (prog : Bool) (m n : ℕ) (st : Loading)
    → n + m ≡ end_addr + 1
    → end_addr < 0x1000
    → n < fuel
    → n ≤ bytes_left st
    → (prog ≡ true → n % 4 ≡ 0)
    → load_loop fuel end_addr page prog m st ≡ some (page_filled st page m n)
unfolding load_loop store_at
load_loop-filled zero end_addr page prog m n st e small fuel_lt enough aligned =
    absurd (omega (arith, fuel_lt))
load_loop-filled (suc fuel) end_addr page prog m zero st e small fuel_lt enough aligned =
    let over : leb m end_addr ≡ false = ground (arith, e) in
    let o : st.offset ≡ st.offset + 0 = omega arith in
    rw over (ap (λ o'. some (record st { offset = o' })) o)
load_loop-filled (suc fuel) end_addr page prog m (suc n) st e small fuel_lt enough aligned =
    let k = min 0x100 (end_addr - m + 1) in
    let bytes = next_bytes st k in
    let whole : length bytes ≡ k = omega (arith, length-next_bytes st k, e, enough) in
    let inside : leb m end_addr ≡ true = ground (arith, e) in
    let some_read : (length bytes == 0) ≡ false =
      ne→== (length bytes) 0 (omega (arith, whole, e)) in
    let rest : load_loop fuel end_addr page prog (m + k) (page_filled st page m k)
        ≡ some (page_filled (page_filled st page m k) page (m + k) (suc n - k)) =
      load_loop-filled fuel end_addr page prog (m + k) (suc n - k) (page_filled st page m k)
        (omega (arith, e)) small (omega (arith, fuel_lt, e)) (omega (arith, enough, e))
        (λ t. omega (arith, aligned t, e)) in
    rw
      (
        inside,
        some_read,
        load_into-some prog page m bytes (record st { offset = st.offset + length bytes })
            (omega (arith, whole, e, small)) (λ t. omega (arith, whole, aligned t, e)),
      )
      (ap
          (λ l.
            load_loop fuel end_addr page prog (m + l)
              (record st { offset = st.offset + l; mem = store_at st.mem page m bytes }))
          whole
        ∙ rest
        ∙ ap some (
            page_filled-split st page m k (suc n - k) (suc n) (omega (arith, enough, e))
              (omega (arith, e))))

-- When the file has the bytes from `off` to `end_addr`, `load_to_page` puts exactly these, its next
-- ones, into the page at `off`, moves the offset of the file behind them and changes nothing else.
-- Those of a program are whole instructions.
pub load_to_page-page_filled :
    (off end_addr page : ℕ) (prog : Bool) (st : Loading)
    → off ≤ end_addr
    → end_addr < 0x1000
    → end_addr + 1 - off ≤ bytes_left st
    → (prog ≡ true → (end_addr + 1 - off) % 4 ≡ 0)
    → load_to_page off end_addr page prog st ≡ some (page_filled st page off (end_addr + 1 - off))
unfolding load_to_page
load_to_page-page_filled off end_addr page prog st le small enough aligned =
    let ok : ltb end_addr 0x1000 ≡ true = ground (arith, small) in
    rw ok (
      load_loop-filled 0x1001 end_addr page prog off (end_addr + 1 - off) st (omega (arith, le))
        small (omega (arith, small)) enough aligned)
