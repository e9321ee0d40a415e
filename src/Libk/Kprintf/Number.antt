-- ===== src/Libk/Kprintf/Number.antt =====
-- `_utoa` against the number that its digits read as.
use pi_os.Common.{
  ℕ, zero, suc, ◌+◌, ◌-◌, ◌*◌, ◌/◌, ◌%◌, ◌≤◌, ◌<◌, ◌≡◌, ◌≢◌, ◌⊎◌, inl, inr, refl, sym, ap, ap₂,
  subst, ◌∙◌, arith, List, [], ◌∷◌, ◌++◌, leb, ◌==◌, ==→eq, ==→ne, if◌then◌else◌, Bool-cases,
}
use mathlib.Core.List.{reverse, reverse-append}
use pi_os.Libk.Kprintf.{digit, digits, swap_loop, utoa}
use pi_os.Libk.Kprintf.Swap.{swapped-reverse}

-- The bases that the conversions use.
abbrev pub IsBase : ℕ → Type 0
IsBase base = (base ≡ 10) ⊎ (base ≡ 16)

abbrev pub digit_value : ℕ → ℕ
digit_value c = if leb c b'9' then c - b'0' else c - b'a' + 10

-- The number that a text reads as, from its first digit on.
abbrev pub read_number : (base acc : ℕ) → List ℕ → ℕ
read_number base acc [] = acc
read_number base acc (c ∷ cs) = read_number base (acc * base + digit_value c) cs

read_number-append :
    (base acc : ℕ) (xs ys : List ℕ)
    → read_number base acc (xs ++ ys) ≡ read_number base (read_number base acc xs) ys
read_number-append base acc [] ys = refl
read_number-append base acc (x ∷ xs) ys = read_number-append base (acc * base + digit_value x) xs ys

digit_value-digit : (d : ℕ) → d < 16 → digit_value (digit d) ≡ d
digit_value-digit d h = ground arith

module _ (base : ℕ) (b : IsBase base) (num : ℕ) where
  div_mod : num / base * base + num % base ≡ num
  div_mod = elim b [
    | inl ten ↦ subst (λ (k : ℕ). num / k * k + num % k ≡ num) (sym ten) (omega arith)
    | inr hex ↦ subst (λ (k : ℕ). num / k * k + num % k ≡ num) (sym hex) (omega arith)
  ]

  div_less : num ≢ 0 → num / base < num
  div_less h = elim b [
    | inl ten ↦ subst (λ (k : ℕ). num / k < num) (sym ten) (omega (arith, h))
    | inr hex ↦ subst (λ (k : ℕ). num / k < num) (sym hex) (omega (arith, h))
  ]

  mod_small : num % base < 16
  mod_small = elim b [
    | inl ten ↦ subst (λ (k : ℕ). num % k < 16) (sym ten) (omega arith)
    | inr hex ↦ subst (λ (k : ℕ). num % k < 16) (sym hex) (omega arith)
  ]

-- The digits, lowest first, read from the last one as the number.
read_number-digits :
    (fuel num base : ℕ)
    → IsBase base
    → num ≤ fuel
    → read_number base 0 (reverse (digits fuel num base)) ≡ num
unfolding digits
read_number-digits zero num base b h = omega arith
read_number-digits (suc fuel) num base b h = elim (Bool-cases (num == 0)) [
  | inl none_left ↦ rw none_left (sym (==→eq num 0 none_left))
  | inr more ↦
      let low : ℕ = digit (num % base) in
      let rest : List ℕ = digits fuel (num / base) base in
      let ih : read_number base 0 (reverse rest) ≡ num / base =
        read_number-digits fuel (num / base) base b
          (omega (arith, h, div_less base b num (==→ne num 0 more))) in
      rw more (
        ap (read_number base 0) (reverse-append (low ∷ []) rest)
        ∙ read_number-append base 0 (reverse rest) (low ∷ [])
        ∙ ap₂ (λ (q : ℕ) (d : ℕ). q * base + d) ih
            (digit_value-digit (num % base) (mod_small base b num))
        ∙ div_mod base b num)
]

-- The digits that `_utoa` stores, in the order of the buffer, read as the number in base 10 or 16.
pub utoa-read_number : (num base : ℕ) → IsBase base → read_number base 0 (utoa num base) ≡ num
unfolding utoa swap_loop
utoa-read_number num base b = elim (Bool-cases (num == 0)) [
  | inl is_zero ↦ rw is_zero (omega (arith, ==→eq num 0 is_zero))
  | inr more ↦ rw more (
      ap (read_number base 0) (swapped-reverse (digits num num base))
      ∙ read_number-digits num num base b (omega arith))
]
