-- ===== src/Libc/Printf/Deliver.antt =====
-- printf.c to a stream: what it prints reaches the stream of stdio.c.
use pi_os.Common.{
  ℕ, ◌*◌, ◌<◌, ◌≡◌, sym, ap, subst, ◌∙◌, arith, some, List, [], ◌∷◌, ◌++◌, append_assoc, append-nil,
  length, take_all,
}
use pi_os.Common.Word.{add16}
use pi_os.Libc.Strings.{CString}
use pi_os.Libc.Stdio.{File, Syscalls, fwrite}
use pi_os.Libc.Stdio.Stream.{TakesAll, IsValid, stream_of, Appended, fwrite-Appended}
use pi_os.Libk.Kprintf.{Arg, at_head, vsprintf}
use pi_os.Libc.Printf.{
  Out, printf_putc, printf_write, bytes_out, printf_core, stream_out, stream_all, print_outs,
  vfprintf,
}
use pi_os.Libc.Printf.Agree.{printed, map_printed, IsPlain, printf_core-vsprintf}

abbrev pub AllShort : List Out → Type 0
AllShort [] = Unit {0}
AllShort (out ∷ outs) = (length (bytes_out out) < 0x8000) × AllShort outs

module _ {S : Type 0} (sys : Syscalls S) (out : S → List ℕ) where
  stream_out-Appended :
      (o : Out) (stream : File) (s : S)
      → TakesAll sys out stream.file_fd
      → IsValid stream
      → length (bytes_out o) < 0x8000
      → Appended sys out stream s (bytes_out o) (length (bytes_out o)) (stream_out sys o stream s)
  stream_out-Appended (printf_putc c) stream s all v h =
      fwrite-Appended sys out stream s (c ∷ []) 1 1 all v (omega arith) (omega arith)
  stream_out-Appended (printf_write bytes) stream s all v h =
      let e : length bytes * 1 ≡ length bytes = omega arith in
      subst (λ n. Appended sys out stream s bytes n (fwrite sys bytes (length bytes) 1 stream s)) e
        (fwrite-Appended sys out stream s bytes (length bytes) 1 all v (omega arith) (omega arith))

  -- The bytes are at the end of the stream, which is still valid.
  pub record Printed (bytes : List ℕ) (stream : File) (s : S) (res : ℕ × File × S) : Type 0 where
    pub got : stream_of sys out res.1 res.2 ≡ stream_of sys out stream s ++ bytes
    pub valid : IsValid res.1

  stream_all-Printed :
      (size : ℕ) (outs : List Out) (stream : File) (s : S)
      → TakesAll sys out stream.file_fd
      → IsValid stream
      → AllShort outs
      → Printed (printed outs) stream s (stream_all sys size outs stream s)
  unfolding stream_all
  stream_all-Printed size [] stream s all v h = record {
    got = sym (append-nil (stream_of sys out stream s));
    valid = v;
  }
  stream_all-Printed size (o ∷ outs) stream s all v h =
      let a = stream_out-Appended o stream s all v h.0 in
      let (wlen, stream', s') = stream_out sys o stream s in
      let rest =
        stream_all-Printed (add16 size wlen) outs stream' s'
          (subst (TakesAll sys out) (sym a.same_fd) all) a.valid h.1 in
      record {
        got =
            rest.got
            ∙ ap (λ t. t ++ printed outs) a.got
            ∙ ap (λ t. (stream_of sys out stream s ++ t) ++ printed outs)
                (take_all (length (bytes_out o)) (bytes_out o) (omega arith))
            ∙ append_assoc (stream_of sys out stream s) (bytes_out o) (printed outs);
        valid = rest.valid;
      }

-- A call of `vfprintf` whose arguments fit a plain format, over a kernel that takes every byte and
-- with no string of 32768 bytes or more, returns, and puts at the end of the stream the bytes that
-- vsprintf of the kernel stores for that format and those arguments; the stream stays valid.
pub vfprintf-vsprintf :
    {S : Type 0} (sys : Syscalls S) (out : S → List ℕ) (stream : File) (s : S) (format : CString)
    (args : List Arg) (outs : List Out)
    → TakesAll sys out stream.file_fd
    → IsValid stream
    → IsPlain at_head format
    → printf_core at_head format args ≡ some outs
    → AllShort outs
    → (bytes : List ℕ) × (res : ℕ × File × S) × (vsprintf at_head format args ≡ some bytes)
      × (vfprintf sys stream format args s ≡ some res)
      × Printed sys out bytes stream s res
unfolding vfprintf
vfprintf-vsprintf sys out stream s format args outs all v plain ran short = (
  printed outs,
  stream_all sys 0 outs stream s,
  sym (printf_core-vsprintf at_head format args plain) ∙ ap map_printed ran,
  ap (print_outs sys stream s) ran,
  stream_all-Printed sys out 0 outs stream s all v short,
)
