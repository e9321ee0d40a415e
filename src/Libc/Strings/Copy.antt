-- ===== src/Libc/Strings/Copy.antt =====
-- strcpy, strncpy, memset and memcpy.
use pi_os.Common.{
  ℕ, zero, suc, ◌≤◌, ◌<◌, ◌≡◌, refl, ap, arith, List, [], ◌∷◌, ◌++◌, length, take, drop, replicate,
}
use pi_os.Libc.Strings.{CString, strcpy, strncpy, memset, memcpy}
use pi_os.Libc.Strings.Compare.{text, terminated}

-- Where the text and its 0 fit in `dest`, `strcpy` writes just them.
pub strcpy-terminated :
    (dest : List ℕ) (src : CString)
    → length (text src) < length dest
    → strcpy dest src ≡ terminated src ++ drop (suc (length (text src))) dest
unfolding strcpy
strcpy-terminated [] src h = absurd (omega arith)
strcpy-terminated (d ∷ dest) [] h = refl
strcpy-terminated (d ∷ dest) (c ∷ src) h = ground (arith, strcpy-terminated dest src)

-- A string that was copied into enough room reads back as the same text.
pub text-strcpy :
    (dest : List ℕ) (src : CString)
    → length (text src) < length dest
    → text (strcpy dest src) ≡ text src
unfolding strcpy
text-strcpy [] src h = absurd (omega arith)
text-strcpy (d ∷ dest) [] h = refl
text-strcpy (d ∷ dest) (c ∷ src) h = ground (arith, text-strcpy dest src)

-- The first `n` bytes of a text, filled up with 0.
abbrev pub padded : ℕ → List ℕ → List ℕ
padded zero t = []
padded (suc n) [] = 0 ∷ padded n []
padded (suc n) (c ∷ t) = c ∷ padded n t

-- Where `count` bytes fit in `dest`, `strncpy` writes just them: the text, cut or filled up with 0.
pub strncpy-padded :
    (count : ℕ) (dest : List ℕ) (src : CString)
    → count ≤ length dest
    → strncpy dest src count ≡ padded count (text src) ++ drop count dest
unfolding strncpy
strncpy-padded zero dest src h = refl
strncpy-padded (suc n) [] src h = absurd (omega arith)
strncpy-padded (suc n) (d ∷ dest) [] h = ap (λ t. 0 ∷ t) (strncpy-padded n dest [] (omega arith))
strncpy-padded (suc n) (d ∷ dest) (c ∷ src) h =
    ground (arith, strncpy-padded n dest src, strncpy-padded n dest (c ∷ src))

-- Where `count` bytes fit on both sides, `memcpy` writes just the first `count` bytes of the source.
pub memcpy-take :
    (count : ℕ) (dest src : List ℕ)
    → count ≤ length dest
    → count ≤ length src
    → memcpy dest src count ≡ take count src ++ drop count dest
unfolding memcpy
memcpy-take zero dest src h k = refl
memcpy-take (suc n) [] src h k = absurd (omega arith)
memcpy-take (suc n) (d ∷ dest) [] h k = absurd (omega arith)
memcpy-take (suc n) (d ∷ dest) (c ∷ src) h k =
    ap (λ t. c ∷ t) (memcpy-take n dest src (omega arith) (omega arith))

-- Where `count` bytes fit in `dest`, `memset` writes just them.
pub memset-replicate :
    (count : ℕ) (dest : List ℕ) (ch : ℕ)
    → count ≤ length dest
    → memset dest ch count ≡ replicate count ch ++ drop count dest
unfolding memset
memset-replicate zero dest ch h = refl
memset-replicate (suc n) [] ch h = absurd (omega arith)
memset-replicate (suc n) (d ∷ dest) ch h =
    ap (λ t. ch ∷ t) (memset-replicate n dest ch (omega arith))

pub length-memcpy : (dest src : List ℕ) (n : ℕ) → length (memcpy dest src n) ≡ length dest
unfolding memcpy
length-memcpy dest src zero = refl
length-memcpy [] src (suc n) = refl
length-memcpy (d ∷ dest) [] (suc n) = refl
length-memcpy (d ∷ dest) (c ∷ src) (suc n) = ap suc (length-memcpy dest src n)
