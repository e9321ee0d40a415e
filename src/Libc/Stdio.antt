-- ===== src/Libc/Stdio.antt =====
-- lib/libc/src/stdio.c: streams over file descriptors. The system calls of sys.c, which are written
-- in assembly, are parameters, and `S` is the state of the kernel that they act on. A `FILE*` is the
-- record that it points at; whether it is one of the three standard streams is told apart.
-- A buffer is the list of its bytes.
pub mod Stream
pub mod Close
pub mod Errors
mod Tests
use pi_os.Common.{
  ℕ, zero, suc, ◌+◌, Bool, true, false, ◌%◌, ◌&&◌, ◌||◌, not, List, [], ◌∷◌, ◌++◌, Option, none,
  some, leb, ◌==◌, if◌then◌else◌, take, drop,
}
use pi_os.Common.Word.{add16, mul16, neg16, is_neg16}
use pi_os.Libc.Strings.{CString, strlen, memcpy}

abbrev pub file_buff_size : ℕ
file_buff_size = 64

abbrev pub file_flag_read : ℕ
file_flag_read = 1

abbrev pub file_flag_write : ℕ
file_flag_write = 2

abbrev pub file_buff_type_unbuff : ℕ
file_buff_type_unbuff = 0

abbrev pub file_buff_type_linebuff : ℕ
file_buff_type_linebuff = 1

abbrev pub file_buff_type_fullbuff : ℕ
file_buff_type_fullbuff = 2

-- `EOF`, the word of -1
abbrev pub eof : ℕ
eof = neg16 1

abbrev pub f_getfl : ℕ
f_getfl = 1

abbrev pub f_setfl : ℕ
f_setfl = 2

abbrev pub f_flags : ℕ
f_flags = 0

abbrev pub f_driver_custom_start : ℕ
f_driver_custom_start = 0x100

-- `struct __FILE_INTERNAL`
pub record File : Type 0 where
  pub file_fd : ℕ
  pub flags : ℕ
  pub buff_type : ℕ
  pub buff : List ℕ
  pub buff_size : ℕ
  pub buff_clen : ℕ
  pub status : ℕ

-- The system calls: each takes its arguments and the state, and returns its `int` and the state.
-- `sys_read` also returns the bytes that it stores.
pub record Syscalls (S : Type 0) : Type 0 where
  pub sys_open : CString → S → ℕ × S
  pub sys_close : ℕ → S → ℕ × S
  pub sys_read : ℕ → ℕ → S → ℕ × List ℕ × S
  pub sys_write : ℕ → List ℕ → S → ℕ × S
  pub sys_fcntl : ℕ → ℕ → ℕ → S → ℕ × S
  pub sys_exec : ℕ → S → ℕ × S

abbrev with_buffer : File → List ℕ → File
with_buffer file storage = record file { buff_size = file_buff_size; buff = storage }

-- The loop that looks for `\n` among the first `size` bytes.
abbrev pub has_newline : ℕ → List ℕ → Bool
has_newline zero cb = false
has_newline (suc size) [] = false
has_newline (suc size) (c ∷ cb) = (c == 10) || has_newline size cb

-- Whether a write of `size` bytes only goes to the buffer.
abbrev pub writes_to_buff : File → List ℕ → ℕ → Bool
writes_to_buff stream buffer size =
    not (stream.buff_type == file_buff_type_unbuff)
    && leb (add16 stream.buff_clen size) stream.buff_size
    && not ((stream.buff_type == file_buff_type_linebuff) && has_newline size buffer)

-- `memcpy(stream->buff+stream->buff_clen, buffer, size)`, and the new length
abbrev pub buffered : File → List ℕ → ℕ → File
buffered stream buffer size = record stream {
  buff =
      take stream.buff_clen stream.buff ++ memcpy (drop stream.buff_clen stream.buff) buffer size;
  buff_clen = add16 stream.buff_clen size;
}

module _ {S : Type 0} (sys : Syscalls S) where
  -- `__stdio_init`: `storage` is what `malloc` returns for the buffer of `stdout`; the streams are
  -- `stdin`, `stdout` and `stderr`.
  unfoldable pub stdio_init : (tty : CString) → (storage : List ℕ) → S → File × File × File × S
  stdio_init tty storage s0 =
      let (fd0, s1) = sys.sys_open tty s0 in
      let (fd1, s2) = sys.sys_open tty s1 in
      let (fd2, s3) = sys.sys_open tty s2 in
      let unbuffered : File = record {
        file_fd = fd0;
        flags = file_flag_read;
        buff_type = file_buff_type_unbuff;
        buff = [];
        buff_size = 0;
        buff_clen = 0;
        status = 0;
      } in
      (
        unbuffered,
        with_buffer
            (record unbuffered {
              file_fd = fd1;
              flags = file_flag_write;
              buff_type = file_buff_type_linebuff;
            })
            storage,
        record unbuffered { file_fd = fd2; flags = file_flag_write },
        s3,
      )

  -- `junk` is what `malloc` returns: the fields that are not set keep it.
  unfoldable pub fopen : (path : CString) → (junk : File) → S → Option File × S
  fopen path junk s =
      let (fd, s') = sys.sys_open path s in
      if is_neg16 fd then (none, s') else (
        some (record junk {
          file_fd = fd;
          flags = 0;
          buff_type = file_buff_type_unbuff;
          status = 0;
        }),
        s',
      )

  -- What follows a write of the buffer.
  abbrev flushed : File → ℕ × S → ℕ × File × S
  flushed file (res, s) =
      if is_neg16 res
      then (eof, record file { buff_clen = 0; status = neg16 res }, s)
      else (0, record file { buff_clen = 0 }, s)

  unfoldable pub fflush : File → S → ℕ × File × S
  fflush file s =
      if (file.buff_type == file_buff_type_unbuff) || (file.buff_clen == 0)
      then (0, file, s)
      else flushed file (sys.sys_write file.file_fd (take file.buff_clen file.buff) s)

  -- What follows the write of the bytes themselves.
  abbrev written : File → ℕ × S → ℕ × File × S
  written stream (res, s) =
      if is_neg16 res
      then (0, record stream { status = neg16 res }, s)
      else (res, record stream { status = 0 }, s)

  -- The write past the buffer, once it is flushed.
  abbrev pub write_through : List ℕ → ℕ → ℕ × File × S → ℕ × File × S
  write_through buffer size (err, stream, s) =
      if err == 0
      then written stream (sys.sys_write stream.file_fd (take size buffer) s)
      else (0, stream, s)

  unfoldable pub fwrite : (buffer : List ℕ) → (one_size nmemb : ℕ) → File → S → ℕ × File × S
  fwrite buffer one_size nmemb stream s =
      let size : ℕ = mul16 one_size nmemb in
      if writes_to_buff stream buffer size
      then (size, buffered stream buffer size, s)
      else write_through buffer size (fflush stream s)

  -- The status of a read at the end of the file is set to `EOF` and then to 0.
  abbrev read_done : File → ℕ × List ℕ × S → ℕ × List ℕ × File × S
  read_done stream (res, bytes, s) =
      if is_neg16 res then (0, bytes, record stream { status = neg16 res }, s) else (
        res,
        bytes,
        record (if res == 0 then record stream { status = eof } else stream) { status = 0 },
        s,
      )

  unfoldable pub fread : (one_size nmemb : ℕ) → File → S → ℕ × List ℕ × File × S
  fread one_size nmemb stream s =
      read_done stream (sys.sys_read stream.file_fd (mul16 one_size nmemb) s)

  -- The stream after `fclose`: a standard one stays, closed; another one is freed.
  abbrev closed : (is_standard : Bool) → (flush_err : ℕ) → File → ℕ × S → ℕ × Option File × S
  closed is_standard flush_err file (res, s) = (
    if (flush_err == 0) && (res == 0) then 0 else eof,
    if is_standard then some (record file { file_fd = neg16 1 }) else none,
    s,
  )

  abbrev pub close_flushed : (is_standard : Bool) → ℕ × File × S → ℕ × Option File × S
  close_flushed is_standard (err, file, s) =
      closed is_standard err file (sys.sys_close file.file_fd s)

  unfoldable pub fclose : (is_standard : Bool) → File → S → ℕ × Option File × S
  fclose is_standard file s =
      if file.file_fd == neg16 1
      then (eof, some file, s)
      else close_flushed is_standard (fflush file s)

  abbrev put_result : ℕ → ℕ × File × S → ℕ × File × S
  put_result ch (wlen, stream, s) = (if wlen == 0 then eof else ch, stream, s)

  unfoldable pub fputc : ℕ → File → S → ℕ × File × S
  fputc ch stream s = put_result ch (fwrite (ch % 256 ∷ []) 1 1 stream s)

  abbrev puts_result : ℕ × File × S → ℕ × File × S
  puts_result (wlen, stream, s) = (if wlen == 0 then eof else wlen, stream, s)

  unfoldable pub fputs : CString → File → S → ℕ × File × S
  fputs str stream s = puts_result (fwrite str (strlen str) 1 stream s)

  abbrev set_result : ℕ × S → ℕ × S
  set_result (res, s) = (if is_neg16 res then res else 0, s)

  unfoldable pub fcntl : File → (mode flags : ℕ) → S → ℕ × S
  fcntl file mode flags s =
      if mode == f_getfl
      then sys.sys_fcntl file.file_fd f_flags (neg16 1) s
      else if mode == f_setfl
      then set_result (sys.sys_fcntl file.file_fd f_flags flags s)
      else if leb f_driver_custom_start mode
      then sys.sys_fcntl file.file_fd mode flags s
      else (neg16 1, s)

  unfoldable pub execf : File → S → ℕ × S
  execf file s = sys.sys_exec file.file_fd s
