-- ===== src/Fs/Tar/Octal.antt =====
-- The sizes in the headers.
use pi_os.Common.{ℕ, zero, suc, ◌+◌, ◌*◌, ◌%◌, ◌<◌, ◌≡◌, refl, ap, ◌∙◌, arith, List, [], ◌∷◌, take}
use pi_os.Fs.Tar.{octal_from, convert_octal}

-- The number that octal digits stand for, the most significant first.
abbrev pub octal_value : ℕ → List ℕ → ℕ
octal_value n [] = n
octal_value n (d ∷ ds) = octal_value (n * 8 + d) ds

abbrev pub ascii : List ℕ → List ℕ
ascii [] = []
ascii (d ∷ ds) = (b'0' + d) ∷ ascii ds

abbrev pub AllOctal : List ℕ → Type 0
AllOctal [] = Unit {0}
AllOctal (d ∷ ds) = (d < 8) × AllOctal ds

octal_from-octal_value :
    (ds : List ℕ) (res n : ℕ)
    → AllOctal ds
    → res ≡ n % 0x1_0000
    → octal_from res (ascii ds) ≡ octal_value n ds % 0x1_0000
unfolding octal_from
octal_from-octal_value [] res n h e = e
octal_from-octal_value (d ∷ ds) res n (lt, h) e =
    octal_from-octal_value ds _ (n * 8 + d) h (omega (arith, lt, e))

take-ascii : (k : ℕ) (ds : List ℕ) → take k (ascii ds) ≡ ascii (take k ds)
take-ascii zero ds = refl
take-ascii (suc k) [] = refl
take-ascii (suc k) (d ∷ ds) = ap (λ t. (b'0' + d) ∷ t) (take-ascii k ds)

AllOctal-take : (k : ℕ) (ds : List ℕ) → AllOctal ds → AllOctal (take k ds)
AllOctal-take zero ds h = tt
AllOctal-take (suc k) [] h = tt
AllOctal-take (suc k) (d ∷ ds) (lt, h) = (lt, AllOctal-take k ds h)

-- `convert_octal` of octal digits in ASCII is the number of the first 11 of them, modulo a word.
pub convert_octal-octal_value :
    (ds : List ℕ) → AllOctal ds → convert_octal (ascii ds) ≡ octal_value 0 (take 11 ds) % 0x1_0000
unfolding convert_octal
convert_octal-octal_value ds h =
    ap (octal_from 0) (take-ascii 11 ds)
    ∙ octal_from-octal_value (take 11 ds) 0 0 (AllOctal-take 11 ds h) (omega arith)
