-- ===== src/Proc/Virtual/Bytewise.antt =====
-- The copies by page are copies byte by byte through the page table.
use pi_os.Common.{
  ℕ, zero, suc, ◌+◌, ◌-◌, ◌*◌, ◌/◌, ◌%◌, ◌≤◌, ◌<◌, ◌≡◌, refl, sym, ap, ap₂, ◌∙◌, arith, List, [],
  ◌∷◌, ◌++◌, min, ◌==◌, get_or, take, drop, length, length-take, length-drop, Bool-cases, inl, inr,
  ==→eq, ==→ne, ne→==,
}
use pi_os.Common.Word.{add16}
use pi_os.Proc.{Proc}
use pi_os.Proc.Virtual.{
  local_part, phys_page, Memory, poke, bytes_at, store_at, copy_from, copy_to,
  memcpy_from_userspace, memcpy_to_userspace,
}

-- The bytes of a process from a virtual address on, each looked up by itself.
abbrev pub user_bytes : Memory → List ℕ → (ubuff n : ℕ) → List ℕ
user_bytes mem pages u zero = []
user_bytes mem pages u (suc n) =
    mem (phys_page u pages) (local_part u) ∷ user_bytes mem pages (add16 u 1) n

-- The memory after storing bytes one by one from a virtual address on.
abbrev pub user_store : Memory → List ℕ → (ubuff : ℕ) → List ℕ → Memory
user_store mem pages u [] = mem
user_store mem pages u (x ∷ xs) =
    user_store (poke mem (phys_page u pages) (local_part u) x) pages (add16 u 1) xs

page_part-lem : (q r : ℕ) → r < 0x1000 → (0x1000 * q + r) / 0x1000 ≡ q
page_part-lem q r h = omega arith

local_part-lem : (q r : ℕ) → r < 0x1000 → (0x1000 * q + r) % 0x1000 ≡ r
local_part-lem q r h = omega arith

-- Inside a page, the bytes are those from the local address on.
pub user_bytes-page :
    (mem : Memory) (pages : List ℕ) (n q r : ℕ)
    → q < 16
    → r + n ≤ 0x1000
    → user_bytes mem pages (0x1000 * q + r) n ≡ bytes_at mem (get_or pages q 0) r n
unfolding bytes_at
user_bytes-page mem pages zero q r lt h = refl
user_bytes-page mem pages (suc zero) q r lt h =
    rw (page_part-lem q r (omega (arith, h)), local_part-lem q r (omega (arith, h))) refl
user_bytes-page mem pages (suc (suc n)) q r lt h =
    let next : add16 (0x1000 * q + r) 1 ≡ 0x1000 * q + (r + 1) = omega (arith, lt, h) in
    rw (page_part-lem q r (omega (arith, h)), local_part-lem q r (omega (arith, h)))
      (ap (λ t. mem (get_or pages q 0) r ∷ t)
        (ap (λ u. user_bytes mem pages u (suc n)) next
          ∙ user_bytes-page mem pages (suc n) q (r + 1) lt (omega (arith, h))))

pub user_store-page :
    (mem : Memory) (pages : List ℕ) (xs : List ℕ) (q r : ℕ)
    → q < 16
    → r + length xs ≤ 0x1000
    → user_store mem pages (0x1000 * q + r) xs ≡ store_at mem (get_or pages q 0) r xs
unfolding store_at
user_store-page mem pages [] q r lt h = refl
user_store-page mem pages (x ∷ []) q r lt h =
    rw (page_part-lem q r (omega (arith, h)), local_part-lem q r (omega (arith, h))) refl
user_store-page mem pages (x ∷ y ∷ xs) q r lt h =
    let next : add16 (0x1000 * q + r) 1 ≡ 0x1000 * q + (r + 1) = omega (arith, lt, h) in
    rw (page_part-lem q r (omega (arith, h)), local_part-lem q r (omega (arith, h)))
      (ap (λ u. user_store (poke mem (get_or pages q 0) r x) pages u (y ∷ xs)) next
        ∙ user_store-page (poke mem (get_or pages q 0) r x) pages (y ∷ xs) q (r + 1) lt
            (omega (arith, h)))

user_bytes-split :
    (mem : Memory) (pages : List ℕ) (a b u : ℕ)
    → u < 0x1_0000
    → user_bytes mem pages u (a + b)
      ≡ user_bytes mem pages u a ++ user_bytes mem pages (add16 u a) b
user_bytes-split mem pages zero b u h =
    let e : 0 + b ≡ b = omega arith in
    let same : u ≡ add16 u 0 = omega (arith, h) in
    ap (user_bytes mem pages u) e ∙ ap (λ v. user_bytes mem pages v b) same
user_bytes-split mem pages (suc a) b u h =
    let e : suc a + b ≡ suc (a + b) = omega arith in
    let there : add16 (add16 u 1) a ≡ add16 u (suc a) = omega arith in
    ap (user_bytes mem pages u) e
    ∙ ap (λ t. mem (phys_page u pages) (local_part u) ∷ t)
        (user_bytes-split mem pages a b (add16 u 1) (omega arith)
          ∙ ap (λ v. user_bytes mem pages (add16 u 1) a ++ user_bytes mem pages v b) there)

pub user_store-split :
    (mem : Memory) (pages : List ℕ) (n u : ℕ) (xs : List ℕ)
    → u < 0x1_0000
    → n ≤ length xs
    → user_store mem pages u xs
      ≡ user_store (user_store mem pages u (take n xs)) pages (add16 u n) (drop n xs)
user_store-split mem pages zero u xs h le =
    let same : u ≡ add16 u 0 = omega (arith, h) in ap (λ v. user_store mem pages v xs) same
user_store-split mem pages (suc n) u [] h le = absurd (omega arith)
user_store-split mem pages (suc n) u (x ∷ xs) h le =
    let there : add16 (add16 u 1) n ≡ add16 u (suc n) = omega arith in
    let mem' = poke mem (phys_page u pages) (local_part u) x in
    user_store-split mem' pages n (add16 u 1) xs (omega arith) (omega (arith, le))
    ∙ ap (λ v. user_store (user_store mem' pages (add16 u 1) (take n xs)) pages v (drop n xs)) there

-- One chunk, up to the end of the page.
chunk_bytes :
    (mem : Memory) (pages : List ℕ) (u n : ℕ)
    → u < 0x1_0000
    → u % 0x1000 + n ≤ 0x1000
    → user_bytes mem pages u n ≡ bytes_at mem (phys_page u pages) (local_part u) n
chunk_bytes mem pages u n h fits =
    let e : 0x1000 * (u / 0x1000) + u % 0x1000 ≡ u = omega arith in
    ap (λ v. user_bytes mem pages v n) (sym e)
    ∙ user_bytes-page mem pages n (u / 0x1000) (u % 0x1000) (omega (arith, h)) fits

pub chunk_store :
    (mem : Memory) (pages : List ℕ) (u : ℕ) (xs : List ℕ)
    → u < 0x1_0000
    → u % 0x1000 + length xs ≤ 0x1000
    → user_store mem pages u xs ≡ store_at mem (phys_page u pages) (local_part u) xs
chunk_store mem pages u xs h fits =
    let e : 0x1000 * (u / 0x1000) + u % 0x1000 ≡ u = omega arith in
    ap (λ v. user_store mem pages v xs) (sym e)
    ∙ user_store-page mem pages xs (u / 0x1000) (u % 0x1000) (omega (arith, h)) fits

copy_from-user_bytes :
    (fuel : ℕ) (mem : Memory) (pages : List ℕ) (u size : ℕ)
    → u < 0x1_0000
    → size ≤ fuel * 0x1000 - u % 0x1000
    → copy_from fuel mem pages u size ≡ user_bytes mem pages u size
unfolding copy_from
copy_from-user_bytes zero mem pages u size h enough =
    let e : 0 ≡ size = omega (arith, enough) in ap (user_bytes mem pages u) e
copy_from-user_bytes (suc fuel) mem pages u size h enough = elim (Bool-cases (size == 0)) [
  | inl none_left ↦ rw none_left (ap (user_bytes mem pages u) (sym (==→eq size 0 none_left)))
  | inr more ↦
      let n = min size (0x1000 - u % 0x1000) in
      let ne = ==→ne size 0 more in
      let sum : n + (size - n) ≡ size = omega arith in
      rw more (
        ap₂ (λ a b. a ++ b) (sym (chunk_bytes mem pages u n h (omega arith)))
          (copy_from-user_bytes fuel mem pages (add16 u n) (size - n) (omega arith)
            (omega (arith, enough, h, ne)))
        ∙ sym (user_bytes-split mem pages n (size - n) u h)
        ∙ ap (user_bytes mem pages u) sum)
]

-- A copy from the memory of a process is the bytes at the virtual addresses from `ubuff` on, each
-- looked up in the page table of the system call: where it crosses a page or the end of the address
-- space, it goes on in the next page, or the first.
pub memcpy_from_userspace-user_bytes :
    (mem : Memory) (proc : Proc) (ubuff size : ℕ)
    → ubuff < 0x1_0000
    → size < 0x1_0000
    → memcpy_from_userspace mem proc ubuff size
      ≡ user_bytes mem proc.syscall_state.mem_pages ubuff size
unfolding memcpy_from_userspace
memcpy_from_userspace-user_bytes mem proc ubuff size h small =
    copy_from-user_bytes 17 mem proc.syscall_state.mem_pages ubuff size h (omega (arith, small))

copy_to-user_store :
    (fuel : ℕ) (mem : Memory) (pages : List ℕ) (u : ℕ) (xs : List ℕ)
    → u < 0x1_0000
    → length xs ≤ fuel * 0x1000 - u % 0x1000
    → copy_to fuel mem pages u xs ≡ user_store mem pages u xs
unfolding copy_to
copy_to-user_store zero mem pages u [] h enough = refl
copy_to-user_store zero mem pages u (x ∷ xs) h enough = absurd (omega (arith, enough))
copy_to-user_store (suc fuel) mem pages u [] h enough = refl
copy_to-user_store (suc fuel) mem pages u (x ∷ xs) h enough =
    let n = min (length (x ∷ xs)) (0x1000 - u % 0x1000) in
    let size = length-take n (x ∷ xs) in
    let left = length-drop n (x ∷ xs) in
    rw (ne→== (length (x ∷ xs)) 0 (omega arith)) (
      copy_to-user_store fuel _ pages (add16 u n) (drop n (x ∷ xs)) (omega arith)
        (omega (arith, enough, left, h))
      ∙ ap (λ m. user_store m pages (add16 u n) (drop n (x ∷ xs)))
          (sym (chunk_store mem pages u (take n (x ∷ xs)) h (omega (arith, size))))
      ∙ sym (user_store-split mem pages n u (x ∷ xs) h (omega arith)))

-- A copy to the memory of a process stores the bytes one by one at the virtual addresses from `ubuff`
-- on, through the page table of the system call, across pages and the end of the address space.
pub memcpy_to_userspace-user_store :
    (mem : Memory) (proc : Proc) (ubuff : ℕ) (kbuff : List ℕ)
    → ubuff < 0x1_0000
    → length kbuff < 0x1_0000
    → memcpy_to_userspace mem proc ubuff kbuff
      ≡ user_store mem proc.syscall_state.mem_pages ubuff kbuff
unfolding memcpy_to_userspace
memcpy_to_userspace-user_store mem proc ubuff kbuff h small =
    copy_to-user_store 17 mem proc.syscall_state.mem_pages ubuff kbuff h (omega (arith, small))
