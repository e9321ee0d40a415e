-- ===== src/Libc/Stdio/Tests.antt =====
-- stdio.c over a kernel whose state is what it has got.
use pi_os.Common.{ℕ, ◌≡◌, refl, arith, true, List, [], ◌∷◌, ◌++◌, length}
use pi_os.Common.Word.{neg16}
use pi_os.Libc.Stdio.{File, Syscalls, fwrite}
use pi_os.Libc.Stdio.Stream.{TakesAll, IsValid, pending}
use pi_os.Libc.Stdio.Close.{Closes, concat, then_close, write_all, write_all-fclose}
use pi_os.Libc.Stdio.Errors.{Refuses, Refused, fwrite-Refused}

abbrev calls : Syscalls (List ℕ)
calls = record {
  sys_open = λ path s. (3, s);
  sys_close = λ fd s. (0, s);
  sys_read = λ fd size s. (0, [], s);
  sys_write = λ fd bytes s. (length bytes, s ++ bytes);
  sys_fcntl = λ fd mode flags s. (0, s);
  sys_exec = λ fd s. (0, s);
}

abbrev identity : List ℕ → List ℕ
identity s = s

calls-TakesAll : (fd : ℕ) → TakesAll calls identity fd
calls-TakesAll fd = record { count = λ bytes s h. refl; got = λ bytes s h. refl }

calls-Closes : (fd : ℕ) → Closes calls identity fd
calls-Closes fd = record { res = λ s. refl; kept = λ s. refl }

-- A stream that waits for a newline; one byte waits.
abbrev stdout : File
stdout = record {
  file_fd = 1;
  flags = 2;
  buff_type = 1;
  buff = b'h' ∷ 0 ∷ 0 ∷ 0 ∷ [];
  buff_size = 4;
  buff_clen = 1;
  status = 0;
}

stdout-IsValid : IsValid stdout
stdout-IsValid = record { clen_in = omega arith; size_in = omega arith; small = omega arith }

abbrev ends_line : List ℕ
ends_line = b'i' ∷ 10 ∷ []

write_all-fclose_example :
    let (res, file, s') =
      then_close calls true (write_all calls ((b'i' ∷ []) ∷ (b'j' ∷ 10 ∷ []) ∷ []) stdout []) in
    (res ≡ 0) × (s' ≡ ([] ++ pending stdout) ++ concat ((b'i' ∷ []) ∷ (b'j' ∷ 10 ∷ []) ∷ []))
write_all-fclose_example =
    write_all-fclose calls identity true ((b'i' ∷ []) ∷ (b'j' ∷ 10 ∷ []) ∷ []) stdout []
      (calls-TakesAll 1) (calls-Closes 1) stdout-IsValid (omega arith) (omega arith)

-- The kernel refuses every write with the error 7.
abbrev refusing : Syscalls (List ℕ)
refusing = record calls { sys_write = λ fd bytes s. (neg16 7, s) }

refusing-Refuses : Refuses refusing 1 7
refusing-Refuses = record { res = λ bytes s. refl; is_error = omega arith; small = omega arith }

fwrite-Refused_example : Refused 7 (fwrite refusing ends_line 1 2 stdout [])
fwrite-Refused_example = fwrite-Refused refusing stdout [] ends_line 1 2 7 refusing-Refuses refl
