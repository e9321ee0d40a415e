-- ===== src/Libc/Strings.antt =====
-- lib/libc/src/string.c, and `strcnt` of kernel/libk/string.c.
-- A `char*` is the list of the bytes from there on; a list that ends stands for one whose next byte
-- is the terminating 0. Bytes are unsigned.
pub mod Compare
pub mod Search
pub mod Copy
mod Tests
use pi_os.Common.{
  ℕ, zero, suc, ◌+◌, ◌-◌, Bool, ◌||◌, true, false, Option, none, some, List, [], ◌∷◌, ltb, ◌==◌,
  if◌then◌else◌,
}
use pi_os.Common.Int.{ℤ, pos, negsuc}

abbrev pub CString : Type 0
CString = List ℕ

-- `*s` and `s + 1`
abbrev pub char_at : CString → ℕ
char_at [] = 0
char_at (c ∷ s) = c

-- `(int) a - (int) b` on bytes
abbrev pub byte_diff : ℕ → ℕ → ℤ
byte_diff a b = if ltb a b then negsuc (b - a - 1) else pos (a - b)

unfoldable pub strlen : CString → ℕ
strlen [] = 0
strlen (c ∷ s) = if c == 0 then 0 else suc (strlen s)

unfoldable pub strcmp : CString → CString → ℤ
strcmp [] rhs = byte_diff 0 (char_at rhs)
strcmp (a ∷ lhs) [] = byte_diff a 0
strcmp (a ∷ lhs) (b ∷ rhs) =
    let rest = strcmp lhs rhs in
    if a == b then (if a == 0 then byte_diff a b else rest) else byte_diff a b

-- `count` is what is left of the range; the loop compares at least one byte of it.
unfoldable pub strncmp : CString → CString → ℕ → ℤ
strncmp lhs rhs zero = pos 0
strncmp [] rhs (suc count) = byte_diff 0 (char_at rhs)
strncmp (a ∷ lhs) [] (suc count) = byte_diff a 0
strncmp (a ∷ lhs) (b ∷ rhs) (suc count) =
    let rest = strncmp lhs rhs count in
    if a == b
    then (if a == 0 then byte_diff a b else if count == 0 then byte_diff a b else rest)
    else byte_diff a b

-- The pointer to the first `ch` is the rest of the string from there; the 0 at the end can be found.
unfoldable pub strchr : CString → ℕ → Option CString
strchr [] ch = if ch == 0 then some [] else none
strchr (c ∷ s) ch =
    let rest = strchr s ch in if c == ch then some (c ∷ s) else if c == 0 then none else rest

unfoldable pub strcnt : CString → ℕ → ℕ
strcnt [] pat = if 0 == pat then 1 else 0
strcnt (c ∷ s) pat =
    let rest = strcnt s pat in
    let here : ℕ = if c == pat then 1 else 0 in if c == 0 then here else here + rest

-- `strcpy` and `strncpy` return the memory at `dest`; a byte of it past its end is not written.
unfoldable pub strcpy : (dest : List ℕ) → CString → List ℕ
strcpy [] src = []
strcpy (d ∷ dest) [] = 0 ∷ dest
strcpy (d ∷ dest) (c ∷ src) = let rest = strcpy dest src in if c == 0 then 0 ∷ dest else c ∷ rest

unfoldable pub strncpy : (dest : List ℕ) → CString → ℕ → List ℕ
strncpy dest src zero = dest
strncpy [] src (suc count) = []
strncpy (d ∷ dest) [] (suc count) = 0 ∷ strncpy dest [] count
strncpy (d ∷ dest) (c ∷ src) (suc count) =
    let pad = strncpy dest (c ∷ src) count in
    let rest = strncpy dest src count in if c == 0 then 0 ∷ pad else c ∷ rest

unfoldable pub memset : (dest : List ℕ) → ℕ → ℕ → List ℕ
memset dest ch zero = dest
memset [] ch (suc count) = []
memset (d ∷ dest) ch (suc count) = ch ∷ memset dest ch count

unfoldable pub memcpy : (dest src : List ℕ) → ℕ → List ℕ
memcpy dest src zero = dest
memcpy [] src (suc count) = []
memcpy (d ∷ dest) [] (suc count) = d ∷ dest
memcpy (d ∷ dest) (c ∷ src) (suc count) = c ∷ memcpy dest src count
