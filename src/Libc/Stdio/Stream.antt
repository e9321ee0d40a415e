-- ===== src/Libc/Stdio/Stream.antt =====
-- stdio.c against a stream of bytes: what the kernel has got, and then what waits in the buffer.
use pi_os.Common.{
  ℕ, ◌+◌, ◌*◌, ◌≤◌, ◌<◌, ◌≡◌, refl, ap, ap₂, ◌∙◌, arith, true, false, Bool-cases, inl, inr, ◌==◌,
  ==→eq, eq→==, if◌then◌else◌, List, [], ◌++◌, append-nil, append_assoc, length, take, drop,
  length-take, length-drop, length-append, take-prefix,
}
use pi_os.Common.Word.{add16, mul16, is_neg16}
use pi_os.Libc.Strings.{memcpy}
use pi_os.Libc.Strings.Copy.{memcpy-take, length-memcpy}
use pi_os.Libc.Stdio.{
  File, Syscalls, file_buff_type_unbuff, writes_to_buff, buffered, write_through, fflush, fwrite,
}

-- The kernel takes every byte that is written to the descriptor: `out` is what it has got.
pub record TakesAll {S : Type 0} (sys : Syscalls S) (out : S → List ℕ) (fd : ℕ) : Type 0 where
  pub count :
      (bytes : List ℕ) (s : S) → length bytes < 0x8000 → (sys.sys_write fd bytes s).0 ≡ length bytes
  pub got :
      (bytes : List ℕ) (s : S)
      → length bytes < 0x8000
      → out (sys.sys_write fd bytes s).1 ≡ out s ++ bytes

-- What waits in the buffer is inside it.
pub record IsValid (file : File) : Type 0 where
  pub clen_in : file.buff_clen ≤ file.buff_size
  pub size_in : file.buff_size ≤ length file.buff
  pub small : file.buff_size < 0x4000

-- The bytes that wait.
abbrev pub pending : File → List ℕ
pending file = if file.buff_type == file_buff_type_unbuff then [] else take file.buff_clen file.buff

module _ {S : Type 0} (sys : Syscalls S) (out : S → List ℕ) where
  -- The whole stream.
  abbrev pub stream_of : File → S → List ℕ
  stream_of file s = out s ++ pending file

  -- All that was in the buffer is in the kernel, and the rest of the stream is as it was.
  pub record Flushed (file : File) (s : S) (res : ℕ × File × S) : Type 0 where
    pub ok : res.0 ≡ 0
    pub empty : pending res.1 ≡ []
    pub got : out res.2 ≡ stream_of file s
    pub valid : IsValid res.1
    pub same_fd : res.1.file_fd ≡ file.file_fd

pub take-none : (n : ℕ) (xs : List ℕ) → n ≡ 0 → take n xs ≡ []
take-none n xs h = ap (λ k. take k xs) h

not_negative : (n : ℕ) → n < 0x8000 → is_neg16 n ≡ false
not_negative n h = ground arith

write-ok :
    {S : Type 0} (sys : Syscalls S) (out : S → List ℕ) (fd : ℕ)
    → TakesAll sys out fd
    → (bytes : List ℕ) (s : S) → length bytes < 0x8000
    → is_neg16 (sys.sys_write fd bytes s).0 ≡ false
write-ok sys out fd all bytes s h = not_negative _ (omega (arith, all.count bytes s h))

module _ {S : Type 0} (sys : Syscalls S) (out : S → List ℕ) (file : File) (s : S)
    (all : TakesAll sys out file.file_fd) (v : IsValid file) where
  write_buffer : length (take file.buff_clen file.buff) ≡ file.buff_clen
  write_buffer = omega (arith, length-take file.buff_clen file.buff)

  pub fflush-Flushed : Flushed sys out file s (fflush sys file s)
  unfolding fflush
  fflush-Flushed = elim (Bool-cases (file.buff_type == file_buff_type_unbuff)) [
    | inl unbuff ↦ simp unbuff record {
      ok = refl;
      empty = simp (unbuff) refl;
      got = simp (unbuff, append-nil) refl;
      valid = v;
      same_fd = refl;
    }
    | inr buff ↦ simp buff (elim (Bool-cases (file.buff_clen == 0)) [
      | inl none_waits ↦ simp none_waits record {
        ok = refl;
        empty = simp buff (take-none _ _ (==→eq _ _ none_waits));
        got = simp (buff, take-none _ file.buff (==→eq _ _ none_waits), append-nil) refl;
        valid = v;
        same_fd = refl;
      }
      | inr some_wait ↦
          simp
            (
              some_wait,
              write-ok sys out file.file_fd all (take file.buff_clen file.buff) s
                  (omega (arith, write_buffer)),
            )
            record {
              ok = refl;
              empty = simp buff refl;
              got = simp buff (all.got _ s (omega (arith, write_buffer)));
              valid = record { clen_in = omega arith; size_in = v.size_in; small = v.small };
              same_fd = refl;
            }
    ])
  ]

-- A write that is only buffered.
take-buffered :
    (n k : ℕ) (buff bytes : List ℕ)
    → n + k ≤ length buff
    → k ≤ length bytes
    → take (n + k) (take n buff ++ memcpy (drop n buff) bytes k) ≡ take n buff ++ take k bytes
take-buffered n k buff bytes h l =
    let copy : memcpy (drop n buff) bytes k ≡ take k bytes ++ drop k (drop n buff) =
      memcpy-take k (drop n buff) bytes (omega (arith, length-drop n buff)) l in
    rw copy (
      rw (← append_assoc (take n buff) (take k bytes) (drop k (drop n buff))) (
        take-prefix (n + k) (take n buff ++ take k bytes) (drop k (drop n buff)) (
          omega (
            arith,
            length-append (take n buff) (take k bytes),
            length-take n buff,
            length-take k bytes,
          ))))

module _ {S : Type 0} (sys : Syscalls S) (out : S → List ℕ) (stream : File) (s : S)
    (buffer : List ℕ) (size : ℕ) where
  -- A write of `size` bytes is whole: it puts them at the end of the stream.
  pub record Appended (res : ℕ × File × S) : Type 0 where
    pub count : res.0 ≡ size
    pub got : stream_of sys out res.1 res.2 ≡ stream_of sys out stream s ++ take size buffer
    pub valid : IsValid res.1
    pub same_fd : res.1.file_fd ≡ stream.file_fd

  buffered-Appended :
      IsValid stream
      → size < 0x8000
      → size ≤ length buffer
      → writes_to_buff stream buffer size ≡ true
      → Appended (size, buffered stream buffer size, s)
  buffered-Appended v small room waits =
      let kind : (stream.buff_type == file_buff_type_unbuff) ≡ false = ground arith in
      let fits : add16 stream.buff_clen size ≤ stream.buff_size = ground arith in
      let clen : add16 stream.buff_clen size ≡ stream.buff_clen + size = omega arith in
      record {
        count = refl;
        got =
            simp
              (
                kind,
                clen,
                take-buffered stream.buff_clen size stream.buff buffer (omega arith) room,
                append_assoc,
              )
              refl;
        valid = record {
          clen_in = fits;
          size_in = omega (
            arith,
            length-append (take stream.buff_clen stream.buff)
                (memcpy (drop stream.buff_clen stream.buff) buffer size),
            length-memcpy (drop stream.buff_clen stream.buff) buffer size,
            length-take stream.buff_clen stream.buff,
            length-drop stream.buff_clen stream.buff,
          );
          small = v.small;
        };
        same_fd = refl;
      }

  through-Appended :
      TakesAll sys out stream.file_fd
      → size < 0x8000
      → size ≤ length buffer
      → (r : ℕ × File × S) → Flushed sys out stream s r
      → Appended (write_through sys buffer size r)
  through-Appended all small room (err, file, s1) f =
      let len : length (take size buffer) ≡ size = omega (arith, length-take size buffer) in
      simp
        (
          eq→== err 0 f.ok,
          f.same_fd,
          write-ok sys out stream.file_fd all (take size buffer) s1 (omega arith),
        )
        record {
          count = all.count (take size buffer) s1 (omega arith) ∙ len;
          got =
              ap₂ ◌++◌
                (all.got (take size buffer) s1 (omega arith)
                  ∙ ap (λ t. t ++ take size buffer) f.got)
                f.empty
              ∙ append-nil _;
          valid = record {
            clen_in = f.valid.clen_in;
            size_in = f.valid.size_in;
            small = f.valid.small;
          };
          same_fd = refl;
        }

-- Over a kernel that takes every byte, a write to a valid stream of any kind of buffering, of less
-- than 32768 bytes that the buffer holds, returns their number and puts them at the end of the
-- stream, in order; the stream stays valid and keeps its descriptor.
pub fwrite-Appended :
    {S : Type 0} (sys : Syscalls S) (out : S → List ℕ) (stream : File) (s : S) (buffer : List ℕ)
    (one_size nmemb : ℕ)
    → TakesAll sys out stream.file_fd
    → IsValid stream
    → one_size * nmemb < 0x8000
    → one_size * nmemb ≤ length buffer
    → Appended sys out stream s buffer
        (one_size * nmemb)
        (fwrite sys buffer one_size nmemb stream s)
unfolding fwrite
fwrite-Appended sys out stream s buffer one_size nmemb all v small room =
    let whole : mul16 one_size nmemb ≡ one_size * nmemb = omega arith in
    simp whole (elim (Bool-cases (writes_to_buff stream buffer (one_size * nmemb))) [
      | inl waits ↦ simp waits (buffered-Appended sys out stream s buffer _ v small room waits)
      | inr through ↦ simp through (
          through-Appended sys out stream s buffer _ all small room (fflush sys stream s)
            (fflush-Flushed sys out stream s all v))
    ])
