-- ===== src/Libc/Stdio/Close.antt =====
-- stdio.c: a program that writes to a stream and closes it.
use pi_os.Common.{
  ℕ, Bool, subst, eq→==, ◌*◌, ◌<◌, ◌≡◌, ◌≢◌, refl, ap, sym, ◌∙◌, arith, Option, List, [], ◌∷◌, ◌++◌,
  append-nil, append_assoc, length, take_all, ne→==,
}
use pi_os.Common.Word.{neg16}
use pi_os.Libc.Stdio.{File, Syscalls, fflush, fwrite, fclose, close_flushed}
use pi_os.Libc.Stdio.Stream.{
  TakesAll, IsValid, pending, stream_of, fflush-Flushed, Flushed, fwrite-Appended,
}

abbrev pub concat : List (List ℕ) → List ℕ
concat [] = []
concat (b ∷ bs) = b ++ concat bs

abbrev pub AllShort : List (List ℕ) → Type 0
AllShort [] = Unit {0}
AllShort (b ∷ bs) = (length b < 0x8000) × AllShort bs

module _ {S : Type 0} (sys : Syscalls S) where
  -- A program that writes buffers one after the other, whole.
  abbrev pub write_all : List (List ℕ) → File → S → File × S
  write_all [] stream s = (stream, s)
  write_all (b ∷ bs) stream s =
      let (wlen, stream', s') = fwrite sys b 1 (length b) stream s in write_all bs stream' s'

  abbrev pub then_close : (is_standard : Bool) → File × S → ℕ × Option File × S
  then_close is_standard (stream, s) = fclose sys is_standard stream s

-- Closing a descriptor succeeds and does not change what was written.
pub record Closes {S : Type 0} (sys : Syscalls S) (out : S → List ℕ) (fd : ℕ) : Type 0 where
  pub res : (s : S) → (sys.sys_close fd s).0 ≡ 0
  pub kept : (s : S) → out (sys.sys_close fd s).1 ≡ out s

module _ {S : Type 0} (sys : Syscalls S) (out : S → List ℕ) (is_standard : Bool) (stream : File)
    (s : S) (all : TakesAll sys out stream.file_fd) (closes : Closes sys out stream.file_fd) where
  -- The descriptor is closed with no error, and the kernel has got the whole stream.
  record Delivered (res : ℕ × Option File × S) : Type 0 where
    ok : res.0 ≡ 0
    got : out res.2 ≡ stream_of sys out stream s

  close_flushed-Delivered :
      (r : ℕ × File × S) → Flushed sys out stream s r → Delivered (close_flushed sys is_standard r)
  close_flushed-Delivered (err, file, s1) f =
      simp
        (eq→== err 0 f.ok, f.same_fd, eq→== (sys.sys_close stream.file_fd s1).0 0 (closes.res s1))
        record { ok = refl; got = closes.kept s1 ∙ f.got }

  fclose-Delivered :
      IsValid stream → stream.file_fd ≢ neg16 1 → Delivered (fclose sys is_standard stream s)
  unfolding fclose
  fclose-Delivered v ne =
      simp (ne→== stream.file_fd (neg16 1) ne)
        (close_flushed-Delivered (fflush sys stream s) (fflush-Flushed sys out stream s all v))

-- Over a kernel that takes every byte and closes without an error, a program that writes buffers of
-- less than 32768 bytes to a valid open stream, of any kind of buffering, and closes it, has no error from the close, and the kernel has got what
-- waited in the stream and then every buffer, whole and in order.
pub write_all-fclose :
    {S : Type 0} (sys : Syscalls S) (out : S → List ℕ) (is_standard : Bool) (bs : List (List ℕ))
    (stream : File) (s : S)
    → TakesAll sys out stream.file_fd
    → Closes sys out stream.file_fd
    → IsValid stream
    → stream.file_fd ≢ neg16 1
    → AllShort bs
    → let (res, file, s') = then_close sys is_standard (write_all sys bs stream s) in
      (res ≡ 0) × (out s' ≡ (out s ++ pending stream) ++ concat bs)
write_all-fclose sys out is_standard [] stream s all closes v ne short =
    let d = fclose-Delivered sys out is_standard stream s all closes v ne in
    (d.ok, d.got ∙ sym (append-nil _))
write_all-fclose sys out is_standard (b ∷ bs) stream s all closes v ne short =
    let a = fwrite-Appended sys out stream s b 1 (length b) all v (omega arith) (omega arith) in
    let (n, stream', s') = fwrite sys b 1 (length b) stream s in
    let (ok, got) =
      write_all-fclose sys out is_standard bs stream' s'
        (subst (TakesAll sys out) (sym a.same_fd) all)
        (subst (Closes sys out) (sym a.same_fd) closes) a.valid (λ e. ne (sym a.same_fd ∙ e))
        short.1 in
    (
      ok,
      got
          ∙ ap (λ t. t ++ concat bs) a.got
          ∙ simp (take_all (1 * length b) b (omega arith), append_assoc) refl,
    )
