-- ===== src/Libk/Kprintf/Swap.antt =====
-- The loop of `_utoa` that turns the digits round.
use pi_os.Common.{
  ℕ, zero, suc, ◌+◌, ◌-◌, ◌/◌, ◌≡◌, refl, sym, ap, ap₂, subst, ◌∙◌, arith, List, [], ◌∷◌, ◌++◌,
  append-nil, append_assoc, length, length-append, get_or, set,
}
use pi_os.Libk.Kprintf.{swap_loop, swapped}
use mathlib.Core.List.{reverse, reverse-append}

get_or-prefix :
    (pre : List ℕ) (x : ℕ) (post : List ℕ) (i : ℕ)
    → i ≡ length pre
    → get_or (pre ++ (x ∷ post)) i 0 ≡ x
get_or-prefix [] x post zero h = refl
get_or-prefix [] x post (suc i) h = absurd (omega arith)
get_or-prefix (y ∷ pre) x post zero h = absurd (omega arith)
get_or-prefix (y ∷ pre) x post (suc i) h = get_or-prefix pre x post i (omega arith)

set-prefix :
    (pre : List ℕ) (x v : ℕ) (post : List ℕ) (i : ℕ)
    → i ≡ length pre
    → set (pre ++ (x ∷ post)) i v ≡ pre ++ (v ∷ post)
set-prefix [] x v post zero h = refl
set-prefix [] x v post (suc i) h = absurd (omega arith)
set-prefix (y ∷ pre) x v post zero h = absurd (omega arith)
set-prefix (y ∷ pre) x v post (suc i) h = ap (λ t. y ∷ t) (set-prefix pre x v post i (omega arith))

-- A list of two or more has a first, a middle and a last.
split_last : (x : ℕ) (xs : List ℕ) → (m : List ℕ) × (y : ℕ) × (x ∷ xs ≡ m ++ (y ∷ []))
split_last x [] = ([], x, refl)
split_last x (z ∷ xs) = let (m, y, e) = split_last z xs in (x ∷ m, y, ap (λ t. x ∷ t) e)

-- A buffer that is split before its last unturned byte
regroup :
    (pre m post : List ℕ) (x y : ℕ)
    → pre ++ ((x ∷ (m ++ (y ∷ []))) ++ post) ≡ (pre ++ (x ∷ m)) ++ (y ∷ post)
regroup pre m post x y =
    ap (λ t. pre ++ (x ∷ t)) (append_assoc m (y ∷ []) post)
    ∙ sym (append_assoc pre (x ∷ m) (y ∷ post))

-- One round swaps the first byte and the last of those that are left.
swap_once :
    (pre m post : List ℕ) (x y i j : ℕ)
    → i ≡ length pre
    → j ≡ length (pre ++ (x ∷ m))
    → let buff = pre ++ ((x ∷ (m ++ (y ∷ []))) ++ post) in
      set (set buff i (get_or buff j 0)) j (get_or buff i 0)
      ≡ (pre ++ (y ∷ [])) ++ (m ++ (x ∷ post))
swap_once pre m post x y i j hi hj =
    let buff = pre ++ ((x ∷ (m ++ (y ∷ []))) ++ post) in
    let first : get_or buff i 0 ≡ x = get_or-prefix pre x ((m ++ (y ∷ [])) ++ post) i hi in
    let last : get_or buff j 0 ≡ y =
      ap (λ t. get_or t j 0) (regroup pre m post x y)
      ∙ get_or-prefix (pre ++ (x ∷ m)) y post j hj in
    let put_last : set buff i y ≡ (pre ++ (y ∷ m)) ++ (y ∷ post) =
      set-prefix pre x y ((m ++ (y ∷ [])) ++ post) i hi ∙ regroup pre m post y y in
    let same : j ≡ length (pre ++ (y ∷ m)) =
      omega (arith, hj, length-append pre (x ∷ m), length-append pre (y ∷ m)) in
    ap₂ (λ a b. set (set buff i a) j b) last first
    ∙ ap (λ t. set t j x) put_last
    ∙ set-prefix (pre ++ (y ∷ m)) y x post j same
    ∙ append_assoc pre (y ∷ m) (x ∷ post)
    ∙ sym (append_assoc pre (y ∷ []) (m ++ (x ∷ post)))

reverse-ends : (x y : ℕ) (m : List ℕ) → reverse (x ∷ (m ++ (y ∷ []))) ≡ y ∷ (reverse m ++ (x ∷ []))
reverse-ends x y m =
    reverse-append (x ∷ []) (m ++ (y ∷ [])) ∙ ap (λ t. t ++ (x ∷ [])) (reverse-append m (y ∷ []))

-- With the bytes on each side turned, the rounds that are left turn the middle.
swap_loop-reverse :
    (rounds i pos : ℕ) (pre mid post : List ℕ)
    → i ≡ length pre
    → i ≡ length post
    → pos ≡ i + (length mid + i)
    → rounds ≡ length mid / 2
    → swap_loop rounds i pos (pre ++ (mid ++ post)) ≡ pre ++ (reverse mid ++ post)
unfolding swap_loop
swap_loop-reverse zero i pos pre [] post hi hj hp e = refl
swap_loop-reverse zero i pos pre (x ∷ []) post hi hj hp e = refl
swap_loop-reverse zero i pos pre (x ∷ y ∷ mid) post hi hj hp e = absurd (omega arith)
swap_loop-reverse (suc rounds) i pos pre [] post hi hj hp e = absurd (omega arith)
swap_loop-reverse (suc rounds) i pos pre (x ∷ []) post hi hj hp e = absurd (omega arith)
swap_loop-reverse (suc rounds) i pos pre (x ∷ z ∷ xs) post hi hj hp e =
    let (m, y, ends) = split_last z xs in
    let size : length (z ∷ xs) ≡ length m + 1 = ap (length {0}) ends ∙ length-append m (y ∷ []) in
    let j : pos - i - 1 ≡ length (pre ++ (x ∷ m)) =
      omega (arith, hi, hp, size, length-append pre (x ∷ m)) in
    subst
      (λ t.
        swap_loop (suc rounds) i pos (pre ++ ((x ∷ t) ++ post)) ≡ pre ++ (reverse (x ∷ t) ++ post))
      (sym ends)
      (ap (swap_loop rounds (i + 1) pos) (swap_once pre m post x y i (pos - i - 1) hi j)
        ∙ swap_loop-reverse rounds (i + 1) pos (pre ++ (y ∷ [])) m (x ∷ post)
            (omega (arith, hi, length-append pre (y ∷ []))) (omega (arith, hj))
            (omega (arith, hp, size)) (omega (arith, e, size))
        ∙ append_assoc pre (y ∷ []) (reverse m ++ (x ∷ post))
        ∙ ap (λ t. pre ++ (y ∷ t)) (sym (append_assoc (reverse m) (x ∷ []) post))
        ∙ ap (λ t. pre ++ (t ++ post)) (sym (reverse-ends x y m)))

-- The loop of `_utoa` turns the whole buffer round.
pub swapped-reverse : (buff : List ℕ) → swapped buff ≡ reverse buff
swapped-reverse buff =
    ap (swap_loop (length buff / 2) 0 (length buff)) (sym (append-nil buff))
    ∙ swap_loop-reverse (length buff / 2) 0 (length buff) [] buff [] refl refl (omega arith) refl
    ∙ append-nil (reverse buff)
