-- ===== src/Libc/Strings/Compare.antt =====
-- strlen, strcmp and strncmp against the text that a `char*` holds.
use pi_os.Common.{ℕ, zero, suc, ◌≡◌, refl, arith, List, [], ◌∷◌, ◌==◌, if◌then◌else◌, length, take}
use pi_os.Common.Int.{pos}
use pi_os.Libc.Strings.{CString, strlen, strcmp, strncmp}

-- The bytes before the terminating 0.
abbrev pub text : CString → List ℕ
text [] = []
text (c ∷ s) = if c == 0 then [] else c ∷ text s

-- The bytes up to the terminating 0, with it.
abbrev pub terminated : CString → List ℕ
terminated [] = 0 ∷ []
terminated (c ∷ s) = if c == 0 then 0 ∷ [] else c ∷ terminated s

-- `strlen` counts the bytes before the terminating 0.
pub strlen-length : (s : CString) → strlen s ≡ length (text s)
unfolding strlen
strlen-length [] = refl
strlen-length (c ∷ s) = ground (arith, strlen-length s)

-- `strcmp` returns 0 on equal texts.
pub strcmp-of_eq : (a b : CString) → text a ≡ text b → strcmp a b ≡ pos 0
unfolding strcmp
strcmp-of_eq [] [] h = refl
strcmp-of_eq [] (b ∷ bs) h = ground arith
strcmp-of_eq (a ∷ as') [] h = ground arith
strcmp-of_eq (a ∷ as') (b ∷ bs) h = ground (arith, strcmp-of_eq as' bs)

-- `strcmp` returns 0 only on equal texts.
pub eq-of_strcmp : (a b : CString) → strcmp a b ≡ pos 0 → text a ≡ text b
unfolding strcmp
eq-of_strcmp [] [] h = refl
eq-of_strcmp [] (b ∷ bs) h = ground arith
eq-of_strcmp (a ∷ as') [] h = ground arith
eq-of_strcmp (a ∷ as') (b ∷ bs) h = ground (arith, eq-of_strcmp as' bs)

pub strncmp-of_eq :
    (n : ℕ) (a b : CString) → take n (terminated a) ≡ take n (terminated b) → strncmp a b n ≡ pos 0
unfolding strncmp
strncmp-of_eq zero a b h = refl
strncmp-of_eq (suc n) [] [] h = refl
strncmp-of_eq (suc n) [] (b ∷ bs) h = ground arith
strncmp-of_eq (suc n) (a ∷ as') [] h = ground arith
strncmp-of_eq (suc n) (a ∷ as') (b ∷ bs) h = ground (arith, strncmp-of_eq n as' bs)

pub eq-of_strncmp :
    (n : ℕ) (a b : CString) → strncmp a b n ≡ pos 0 → take n (terminated a) ≡ take n (terminated b)
unfolding strncmp
eq-of_strncmp zero a b h = refl
eq-of_strncmp (suc n) [] [] h = refl
eq-of_strncmp (suc n) [] (b ∷ bs) h = ground arith
eq-of_strncmp (suc n) (a ∷ as') [] h = ground arith
eq-of_strncmp (suc n) (a ∷ as') (b ∷ bs) h = ground (arith, eq-of_strncmp n as' bs)

-- `strncmp` returns 0 exactly when the strings agree on the first `n` bytes, terminating 0 included.
pub strncmp_iff :
    (n : ℕ) (a b : CString)
    → (strncmp a b n ≡ pos 0 → take n (terminated a) ≡ take n (terminated b))
      × (take n (terminated a) ≡ take n (terminated b) → strncmp a b n ≡ pos 0)
strncmp_iff n a b = (eq-of_strncmp n a b, strncmp-of_eq n a b)

-- `strcmp` returns 0 exactly when the texts are equal.
pub strcmp_iff :
    (a b : CString)
    → (strcmp a b ≡ pos 0 → text a ≡ text b) × (text a ≡ text b → strcmp a b ≡ pos 0)
strcmp_iff a b = (eq-of_strcmp a b, strcmp-of_eq a b)
