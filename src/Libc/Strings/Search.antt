-- ===== src/Libc/Strings/Search.antt =====
-- strchr and strcnt against the text that a `char*` holds.
use pi_os.Common.{
  ℕ, suc, ◌≡◌, ◌≢◌, refl, ap, arith, none, some, List, [], ◌∷◌, ◌++◌, ◌==◌, if◌then◌else◌, Bool,
  true, false, Bool-cases, inl, inr,
}
use pi_os.Libc.Strings.{CString, char_at, strchr, strcnt}
use pi_os.Libc.Strings.Compare.{text}

abbrev pub occurs : ℕ → List ℕ → Bool
occurs ch [] = false
occurs ch (c ∷ s) = if c == ch then true else occurs ch s

-- How often `ch` stands in a list.
abbrev pub count : ℕ → List ℕ → ℕ
count ch [] = 0
count ch (c ∷ s) = if c == ch then suc (count ch s) else count ch s

-- `strchr` finds nothing exactly where the byte, not 0, is not in the text.
pub strchr-none :
    (s : CString) (ch : ℕ)
    → ch ≢ 0
    → (occurs ch (text s) ≡ false → strchr s ch ≡ none)
      × (strchr s ch ≡ none → occurs ch (text s) ≡ false)
unfolding strchr
strchr-none [] ch h = (λ e. ground arith, λ e. refl)
strchr-none (c ∷ s) ch h =
    (λ e. ground (arith, (strchr-none s ch h).0), λ e. ground (arith, (strchr-none s ch h).1))

-- What `strchr` returns is the rest of the string from the first place where the byte stands.
pub strchr-some :
    (s : CString) (ch : ℕ) {r : CString}
    → strchr s ch ≡ some r
    → (before : List ℕ) × (s ≡ before ++ r) × (occurs ch before ≡ false) × (char_at r ≡ ch)
unfolding strchr
strchr-some [] ch h = ([], ground arith, refl, ground arith)
strchr-some (c ∷ s) ch h = elim (Bool-cases (c == ch)) [
  | inl here ↦ ([], ground arith, refl, ground arith)
  | inr miss ↦ elim (Bool-cases (c == 0)) [
    | inl ended ↦ absurd (ground (arith, h))
    | inr more ↦
        let (before, e, out, at) = strchr-some s ch (ground (arith, h)) in
        (c ∷ before, ap (λ t. c ∷ t) e, ground arith, at)
  ]
]

-- `strcnt` counts a byte other than 0 in the text.
pub strcnt-count : (s : CString) (pat : ℕ) → pat ≢ 0 → strcnt s pat ≡ count pat (text s)
unfolding strcnt
strcnt-count [] pat h = ground arith
strcnt-count (c ∷ s) pat h = ground (arith, strcnt-count s pat h)
