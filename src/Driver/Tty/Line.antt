-- ===== src/Driver/Tty/Line.antt =====
-- kernel/driver/tty.c: the line that is typed. It goes to `read_rb` at its end.
-- What the source writes past the end of `line_buff` is dropped.
use pi_os.Common.{ℕ, ◌+◌, List, Option, none, some, leb, ◌==◌, if◌then◌else◌, take, set}
use pi_os.Libk.Ringbuff.{Ringbuff, ringbuff_write}
use pi_os.Libk.Semaphore.{semaphore_binary_up, Down, panics, sleeps, takes}
use pi_os.Common.Word.{add16, sub16, slt16}
use pi_os.Driver.Tty.Console.{
  Console, call_vga, vga_put_char_at, vga_text_width, is_printable, tty_new_line, tty_putc,
}

abbrev pub tty_buff_size : ℕ
tty_buff_size = 255

-- `read_data_signal` is the count of the semaphore.
pub record Typed : Type 0 where
  pub console : Console
  pub line_buff : List ℕ
  pub line_buff_len : ℕ
  pub read_rb : Ringbuff
  pub read_data_signal : ℕ

abbrev signalled : Typed → Down → Option Typed
signalled t (takes count) = some (record t { read_data_signal = count })
signalled t panics = none
signalled t sleeps = none

-- `none` is a panic.
unfoldable pub tty_submit_line_buff : Typed → Option Typed
tty_submit_line_buff t =
    let (wlen, rb) = ringbuff_write t.read_rb (take t.line_buff_len t.line_buff) in
    signalled (record t { read_rb = rb; line_buff_len = 0 })
      (semaphore_binary_up t.read_data_signal)

abbrev step_back : Console → Console
step_back c =
    if slt16 0 c.col
    then record c { col = sub16 c.col 1 }
    else record c { row = if slt16 0 c.row then sub16 c.row 1 else c.row; col = vga_text_width }

abbrev erase_char : Console → Console
erase_char c = let back = step_back c in call_vga (vga_put_char_at b' ' back.row back.col) back

unfoldable pub tty_linebuff_erase : Typed → Typed
tty_linebuff_erase t =
    if slt16 0 t.line_buff_len
    then record t { line_buff_len = sub16 t.line_buff_len 1; console = erase_char t.console }
    else t

unfoldable pub linebuff_putc : Typed → ℕ → Typed
linebuff_putc t c =
    if slt16 t.line_buff_len tty_buff_size
    then record t {
      line_buff = set t.line_buff t.line_buff_len c;
      line_buff_len = add16 t.line_buff_len 1;
    }
    else t

abbrev pub new_line : Typed → Typed
new_line t = record t { console = record (tty_new_line t.console) { col = 0 } }

abbrev pub end_line : Option Typed → Option Typed
end_line none = none
end_line (some t) = some (new_line t)

abbrev in_caret : Console → ℕ → Console
in_caret t c = tty_putc (tty_putc t b'^') (if leb c 31 then b'@' + c else b'?')

abbrev echo : Typed → ℕ → Typed
echo t c = record t { console = tty_putc t.console c }

unfoldable pub tty_submit_char : Typed → ℕ → Option Typed
tty_submit_char t c =
    if is_printable c
    then some (echo (linebuff_putc t c) c)
    else if c == 10
    then end_line (tty_submit_line_buff (linebuff_putc t c))
    else if c == 8
    then some (tty_linebuff_erase t)
    else some (linebuff_putc (record t { console = in_caret t.console c }) c)
