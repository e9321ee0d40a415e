-- ===== src/Libc/Printf.antt =====
-- lib/libc/src/printf.c: formatted text, to a stream or to a buffer. The format is walked as in
-- Libk.Kprintf, whose arguments and loops of `_utoa` are used here: the loops of `__printf_utoa` are
-- the same. What is printed is a sequence of calls of `__printf_putc` and `__printf_write`.
pub mod Agree
pub mod Deliver
mod Tests
use pi_os.Common.{
  ℕ, zero, suc, ◌+◌, ◌-◌, ◌%◌, Bool, true, false, ◌||◌, Option, none, some, List, [], ◌∷◌, ◌++◌,
  ltb, leb, ◌==◌, if◌then◌else◌, length, set, take, drop,
}
use pi_os.Common.Word.{add16, sub16, neg16, is_neg16}
use pi_os.Libc.Strings.{CString, memcpy}
use pi_os.Libc.Strings.Compare.{text}
use pi_os.Libc.Stdio.{File, Syscalls, fwrite}
use pi_os.Libk.Kprintf.{Arg, word, string, At, at_head, after_percent, after_long, digits, swapped}

pub data Out : Type 0 where
  printf_putc : ℕ → Out
  printf_write : List ℕ → Out

-- `__printf_utoa`
abbrev pub printf_utoa : (num base : ℕ) → List Out
printf_utoa num base =
    if num == 0 then printf_putc b'0' ∷ [] else printf_write (swapped (digits num num base)) ∷ []

-- Where the next character is read, what is printed, and the arguments left; `none` is an argument
-- that is missing or of another kind.
abbrev pub Step : Type 0
Step = Option (At × List Out × List Arg)

abbrev pub take_word : (ℕ → List Out) → List Arg → Step
take_word out (word w ∷ args) = some (at_head, out w, args)
take_word out other = none

abbrev pub take_string : List Arg → Step
take_string (string s ∷ args) = some (at_head, printf_write (text s) ∷ [], args)
take_string other = none

abbrev pub print_signed : ℕ → List Out
print_signed w =
    if is_neg16 w then printf_putc b'-' ∷ printf_utoa (neg16 w) 10 else printf_utoa w 10

abbrev pub head_step : ℕ → List Arg → Step
head_step c args =
    if c == b'%' then some (after_percent, [], args) else some (at_head, printf_putc c ∷ [], args)

abbrev pub print_first : Out → Step → Step
print_first out none = none
print_first out (some (at, outs, args)) = some (at, out ∷ outs, args)

-- A character that is no conversion leaves a space and is read again at the head of the loop.
unfoldable pub percent_step : ℕ → List Arg → Step
percent_step c args =
    if (c == b'd') || (c == b'i')
    then take_word print_signed args
    else if c == b'u'
    then take_word (λ w. printf_utoa w 10) args
    else if c == b'x'
    then take_word (λ w. printf_utoa w 16) args
    else if c == b's'
    then take_string args
    else if c == b'c'
    then take_word (λ w. printf_putc (w % 256) ∷ []) args
    else print_first (printf_putc b' ') (head_step c args)

-- There is no `%l` here.
abbrev pub step : At → ℕ → List Arg → Step
step at_head c args = head_step c args
step after_percent c args = percent_step c args
step after_long c args = head_step c args

abbrev pub at_end : At → List Out
at_end at_head = []
at_end after_percent = printf_putc b' ' ∷ []
at_end after_long = []

abbrev pub prepend : List Out → Option (List Out) → Option (List Out)
prepend outs none = none
prepend outs (some rest) = some (outs ++ rest)

abbrev pub then_format : Step → (At → List Arg → Option (List Out)) → Option (List Out)
then_format none rest = none
then_format (some (at, outs, args)) rest = prepend outs (rest at args)

-- The loop of `__printf_core`, on a format without its terminating 0.
unfoldable pub printf_core : At → CString → List Arg → Option (List Out)
printf_core at [] args = some (at_end at)
printf_core at (c ∷ str) args =
    then_format (step at c args) (λ next left. printf_core next str left)

-- The bytes of a call.
abbrev pub bytes_out : Out → List ℕ
bytes_out (printf_putc c) = c ∷ []
bytes_out (printf_write bytes) = bytes

-- `__buff_to_write`, `__buff_max` and `__printf_size`, over a buffer that starts at `start`
pub record Buffer : Type 0 where
  pub start : ℕ
  pub buff : List ℕ
  pub to_write : ℕ
  pub max : ℕ
  pub size : ℕ

-- `memcpy` copies the whole of the bytes, also where only some are counted.
abbrev pub put_buffer : Buffer → Out → Buffer
put_buffer b (printf_putc c) =
    if ltb b.to_write b.max
    then record b {
      buff = set b.buff (b.to_write - b.start) c;
      to_write = add16 b.to_write 1;
      size = add16 b.size 1;
    }
    else b
put_buffer b (printf_write bytes) =
    let counted : ℕ =
      if leb b.max (add16 b.to_write (length bytes))
      then sub16 b.max b.to_write
      else length bytes in
    record b {
      buff =
          take (b.to_write - b.start) b.buff
          ++ memcpy (drop (b.to_write - b.start) b.buff) bytes (length bytes);
      to_write = add16 b.to_write counted;
      size = add16 b.size counted;
    }

unfoldable pub put_all : Buffer → List Out → Buffer
put_all b [] = b
put_all b (out ∷ outs) = put_all (put_buffer b out) outs

-- The end of `__printf_core` to a buffer.
abbrev pub terminate : Buffer → Buffer
terminate b = put_buffer (record b { max = add16 b.max 1 }) (printf_putc 0)

abbrev pub with_outs : (start bufsz : ℕ) → List ℕ → Option (List Out) → Option Buffer
with_outs start bufsz buff none = none
with_outs start bufsz buff (some outs) = some (
    terminate (
      put_all
        (record {
          start = start;
          buff = buff;
          to_write = start;
          max = if bufsz == 0xFFFF then 0xFFFF else sub16 (add16 start bufsz) 1;
          size = 0;
        })
        outs))

-- `none` is a missing argument, as in `printf_core`; with no room at all nothing is done.
unfoldable pub vsnprintf :
    (start : ℕ) → (buff : List ℕ) → (bufsz : ℕ) → CString → List Arg → Option (Option Buffer)
vsnprintf start buff bufsz format args =
    if bufsz == 0
    then some none
    else some (with_outs start bufsz buff (printf_core at_head format args))

module _ {S : Type 0} (sys : Syscalls S) where
  -- A call to the stream: `__printf_size` grows by what `fwrite` returns.
  abbrev pub stream_out : Out → File → S → ℕ × File × S
  stream_out (printf_putc c) stream s = fwrite sys (c ∷ []) 1 1 stream s
  stream_out (printf_write bytes) stream s = fwrite sys bytes (length bytes) 1 stream s

  unfoldable pub stream_all : (size : ℕ) → List Out → File → S → ℕ × File × S
  stream_all size [] stream s = (size, stream, s)
  stream_all size (out ∷ outs) stream s =
      let (wlen, stream', s') = stream_out out stream s in
      stream_all (add16 size wlen) outs stream' s'

  abbrev pub print_outs : File → S → Option (List Out) → Option (ℕ × File × S)
  print_outs stream s none = none
  print_outs stream s (some outs) = some (stream_all 0 outs stream s)

  unfoldable pub vfprintf : File → CString → List Arg → S → Option (ℕ × File × S)
  vfprintf stream format args s = print_outs stream s (printf_core at_head format args)
