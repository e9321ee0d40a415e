-- ===== src/Libk/Kprintf.antt =====
-- kernel/libk/kprintf.c: formatted text. The buffer that is written is the list of the bytes from its
-- start, which grows; a conversion takes its argument from the list of those that are left.
pub mod Swap
pub mod Number
mod Tests
use pi_os.Common.{
  ℕ, zero, suc, ◌+◌, ◌-◌, ◌*◌, ◌/◌, ◌%◌, Bool, ◌||◌, Option, none, some, List, [], ◌∷◌, ◌++◌, ltb,
  leb, ◌==◌, if◌then◌else◌, length, get_or, set, replicate,
}
use pi_os.Common.Word.{neg16, is_neg16}
use pi_os.Libc.Strings.{CString}
use pi_os.Libc.Strings.Compare.{text}

-- The digit that `_utoa` stores for a value below the base.
abbrev pub digit : ℕ → ℕ
digit d = if ltb d 10 then b'0' + d else b'a' + (d - 10)

-- `while(num)`: the digits, lowest first. A round makes `num` less, so `num` rounds are enough.
unfoldable pub digits : (fuel num base : ℕ) → List ℕ
digits zero num base = []
digits (suc fuel) num base =
    let rest = digits fuel (num / base) base in if num == 0 then [] else digit (num % base) ∷ rest

-- `for(int i=0; i<(pos>>1); i++)`: `rounds` are left, and `buff` is the buffer.
unfoldable pub swap_loop : (rounds i pos : ℕ) → List ℕ → List ℕ
swap_loop zero i pos buff = buff
swap_loop (suc rounds) i pos buff =
    let swp : ℕ = get_or buff i 0 in
    swap_loop rounds (i + 1) pos (set (set buff i (get_or buff (pos - i - 1) 0)) (pos - i - 1) swp)

abbrev pub swapped : List ℕ → List ℕ
swapped buff = swap_loop (length buff / 2) 0 (length buff) buff

-- `_utoa`: what it stores but the terminating 0; the result is the length.
unfoldable pub utoa : (num base : ℕ) → List ℕ
utoa num base = swapped (if num == 0 then b'0' ∷ [] else digits num num base)

-- An argument of `...`: a word, a string, or a `long`.
pub data Arg : Type 0 where
  word : ℕ → Arg
  string : CString → Arg
  long : ℕ → Arg

-- Where in the loop of `vsprintf` the next character is read: at its head, after `%`, after `%l`.
pub data At : Type 0 where
  at_head : At
  after_percent : At
  after_long : At

-- What a character does: where the next one is read, what is stored, and the arguments left. `none`
-- is an argument that is missing or of another kind.
abbrev pub Step : Type 0
Step = Option (At × List ℕ × List Arg)

abbrev pub take_word : (ℕ → List ℕ) → List Arg → Step
take_word store (word w ∷ args) = some (at_head, store w, args)
take_word store other = none

abbrev pub take_string : List Arg → Step
take_string (string s ∷ args) = some (at_head, text s, args)
take_string other = none

-- The word of `-i_param` is its magnitude.
abbrev pub signed : ℕ → List ℕ
signed w = if is_neg16 w then b'-' ∷ utoa (neg16 w) 10 else utoa w 10

-- `%lx`: the high part, and the low part filled up with zeros to four digits
abbrev pub long_hex : ℕ → List ℕ
long_hex n =
    let l_part = n % 0x1_0000 in
    let low = utoa l_part 16 in
    if n / 0x1_0000 == 0
    then low
    else utoa (n / 0x1_0000) 16 ++ (replicate (4 - length low) b'0' ++ low)

abbrev pub take_long : List Arg → Step
take_long (long n ∷ args) = some (at_head, long_hex n, args)
take_long other = none

-- `*str == '%'` goes on after it, and another character is stored.
abbrev pub head_step : ℕ → List Arg → Step
head_step c args =
    if c == b'%' then some (after_percent, [], args) else some (at_head, c ∷ [], args)

abbrev stored_first : ℕ → Step → Step
stored_first e none = none
stored_first e (some (at, out, args)) = some (at, e ∷ out, args)

-- The conversions; a character that is none leaves an `E` and is read again at the head of the loop.
unfoldable pub percent_step : ℕ → List Arg → Step
percent_step c args =
    if (c == b'd') || (c == b'i')
    then take_word signed args
    else if c == b'u'
    then take_word (λ w. utoa w 10) args
    else if c == b'x'
    then take_word (λ w. utoa w 16) args
    else if c == b's'
    then take_string args
    else if c == b'c'
    then take_word (λ w. w % 256 ∷ []) args
    else if c == b'l'
    then some (after_long, [], args)
    else stored_first b'E' (head_step c args)

abbrev pub step : At → ℕ → List Arg → Step
step at_head c args = head_step c args
step after_percent c args = percent_step c args
step after_long c args = if c == b'x' then take_long args else some (at_head, b'E' ∷ [], args)

-- At the end of the format. After `%l` the loop steps over the terminating 0 and reads on.
abbrev pub at_end : At → Option (List ℕ)
at_end at_head = some []
at_end after_percent = some (b'E' ∷ [])
at_end after_long = none

abbrev pub prepend : List ℕ → Option (List ℕ) → Option (List ℕ)
prepend out none = none
prepend out (some rest) = some (out ++ rest)

abbrev pub then_format : Step → (At → List Arg → Option (List ℕ)) → Option (List ℕ)
then_format none rest = none
then_format (some (at, out, args)) rest = prepend out (rest at args)

-- `vsprintf` on a format without its terminating 0: what it stores, without its own.
unfoldable pub vsprintf : At → CString → List Arg → Option (List ℕ)
vsprintf at [] args = at_end at
vsprintf at (c ∷ str) args = then_format (step at c args) (λ next left. vsprintf next str left)
