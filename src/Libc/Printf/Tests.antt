-- ===== src/Libc/Printf/Tests.antt =====
-- printf.c on `%d!` to the stream of the tests of stdio.c.
use pi_os.Common.{ℕ, ◌≡◌, refl, arith, some, List, [], ◌∷◌, ◌++◌, length}
use pi_os.Libc.Strings.{CString}
use pi_os.Libc.Stdio.{File, Syscalls}
use pi_os.Libk.Kprintf.{Arg, word, at_head, vsprintf, digits, swap_loop}
use pi_os.Libc.Printf as Printf
use pi_os.Libc.Printf.{Out, printf_putc, printf_write, printf_core, vfprintf}
use pi_os.Libc.Printf.Agree.{IsPlain, map_printed, printf_core-vsprintf}
use pi_os.Libc.Printf.Deliver.{Printed, vfprintf-vsprintf}

abbrev calls : Syscalls (List ℕ)
calls = record {
  sys_open = λ path s. (3, s);
  sys_close = λ fd s. (0, s);
  sys_read = λ fd size s. (0, [], s);
  sys_write = λ fd bytes s. (length bytes, s ++ bytes);
  sys_fcntl = λ fd mode flags s. (0, s);
  sys_exec = λ fd s. (0, s);
}

abbrev same : List ℕ → List ℕ
same s = s

abbrev stderr : File
stderr = record {
  file_fd = 2;
  flags = 2;
  buff_type = 0;
  buff = [];
  buff_size = 0;
  buff_clen = 0;
  status = 0;
}

abbrev format : CString
format = b'%' ∷ b'd' ∷ b'!' ∷ []

abbrev args : List Arg
args = word 0xFFD6 ∷ []

abbrev outs : List Out
outs = printf_putc b'-' ∷ printf_write (b'4' ∷ b'2' ∷ []) ∷ printf_putc b'!' ∷ []

format-IsPlain : IsPlain at_head format
format-IsPlain = (refl, tt)

printf_core-outs : printf_core at_head format args ≡ some outs
unfolding printf_core Printf.percent_step digits swap_loop
printf_core-outs = refl

printf_core-vsprintf_example :
    map_printed (printf_core at_head format args) ≡ vsprintf at_head format args
printf_core-vsprintf_example = printf_core-vsprintf at_head format args format-IsPlain

vfprintf-vsprintf_example :
    (bytes : List ℕ) × (res : ℕ × File × List ℕ) × (vsprintf at_head format args ≡ some bytes)
    × (vfprintf calls stderr format args [] ≡ some res)
    × Printed calls same bytes stderr [] res
vfprintf-vsprintf_example =
    vfprintf-vsprintf calls same stderr [] format args outs
      (record { count = λ bytes s h. refl; got = λ bytes s h. refl })
      (record { clen_in = omega arith; size_in = omega arith; small = omega arith }) format-IsPlain
      printf_core-outs (omega arith)
