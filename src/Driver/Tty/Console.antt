-- ===== src/Driver/Tty/Console.antt =====
-- kernel/driver/tty.c: the console.
-- A `char` is its byte: the compiler of the machine has it unsigned, as `GET_U16` of elf.c needs. The
-- device is written by the calls of vga.c alone; the console keeps these calls, the last one first.
use pi_os.Common.{
  ℕ, zero, suc, ◌+◌, ◌-◌, ◌||◌, ◌%◌, Bool, true, false, ◌&&◌, List, ◌∷◌, leb, ◌==◌, if◌then◌else◌,
}
use pi_os.Common.Word.{add16, sub16, mul16, slt16, max16, min16}
use Prim.Native.Nat.{bit_or}

abbrev pub vga_text_width : ℕ
vga_text_width = 106

abbrev pub vga_text_height : ℕ
vga_text_height = 48

-- A call of vga.c.
pub data VgaCall : Type 0 where
  vga_fast_scroll : VgaCall
  vga_put_char_at : (c row col : ℕ) → VgaCall
  vga_set_color : ℕ → VgaCall

-- The variables that `tty_putc` uses; a row and a column are `int`.
pub record Console : Type 0 where
  pub row : ℕ
  pub col : ℕ
  pub esc_stage : ℕ
  pub esc_arg0 : ℕ
  pub esc_arg1 : ℕ
  pub in_escape_code : Bool
  pub calls : List VgaCall

abbrev pub is_printable : ℕ → Bool
is_printable c = leb 32 c && leb c 126

abbrev pub call_vga : VgaCall → Console → Console
call_vga v t = record t { calls = v ∷ t.calls }

unfoldable pub tty_new_line : Console → Console
tty_new_line t =
    let down : Console = record t { row = add16 t.row 1 } in
    if slt16 down.row vga_text_height
    then down
    else call_vga vga_fast_scroll (record down { row = vga_text_height - 1 })

-- `for(int i=0; i<n; i++) tty_new_line();`
unfoldable pub new_lines : ℕ → Console → Console
new_lines zero t = t
new_lines (suc n) t = new_lines n (tty_new_line t)

-- `esc_stage == 0`: only `[` goes on.
abbrev escape_start : Console → ℕ → Console
escape_start t c =
    if c == b'['
    then record t { esc_stage = 1; esc_arg0 = 0; esc_arg1 = 0 }
    else record t { in_escape_code = false; esc_stage = 0 }

-- `arg *= 10; arg += c-'0';`
abbrev add_digit : ℕ → ℕ → ℕ
add_digit arg c = add16 (mul16 arg 10) (sub16 c b'0')

-- `esc_stage` 1 and 2: an argument.
unfoldable pub escape_argument : Console → ℕ → Console
escape_argument t c =
    if c == b';'
    then record t { esc_stage = t.esc_stage + 1 }
    else if leb b'0' c && leb c b'9'
    then (if t.esc_stage == 1
        then record t { esc_arg0 = add_digit t.esc_arg0 c }
        else record t { esc_arg1 = add_digit t.esc_arg1 c })
    else record t { esc_stage = 3 }

-- The four bits of a color.
abbrev color_of : ℕ → ℕ
color_of arg = if slt16 arg 38 then sub16 arg 30 else bit_or (sub16 arg 90) 8

abbrev colors : Console → ℕ
colors t =
    let fg = color_of t.esc_arg0 in
    let bg = if t.esc_arg1 == 0 then 0 else color_of t.esc_arg1 in bit_or fg (mul16 bg 16) % 256

-- `esc_stage == 3`: the final byte.
unfoldable pub escape_command : Console → ℕ → Console
escape_command t c =
    if c == b'm'
    then call_vga (vga_set_color (colors t)) t
    else if c == b'A'
    then record t { row = sub16 t.row (max16 (max16 t.esc_arg0 1) 0) }
    else if c == b'B'
    then new_lines (max16 t.esc_arg0 1) t
    else if c == b'C'
    then record t { col = min16 (add16 t.col (max16 t.esc_arg0 1)) (vga_text_width - 1) }
    else if c == b'D'
    then record t { col = max16 (sub16 t.col (max16 t.esc_arg0 1)) 0 }
    else if c == b'H'
    then record t {
      col = min16 t.esc_arg0 (vga_text_width - 1);
      row = min16 t.esc_arg1 (vga_text_height - 1);
    }
    else t

abbrev pub escape_final : Console → ℕ → Console
escape_final t c = record (escape_command t c) { in_escape_code = false; esc_stage = 0 }

abbrev pub escape_next : Console → ℕ → Console
escape_next t c = if t.esc_stage == 3 then escape_final t c else t

unfoldable pub handle_escapes : Console → ℕ → Console
handle_escapes t c =
    if t.esc_stage == 0
    then escape_start t c
    else escape_next (if (t.esc_stage == 1) || (t.esc_stage == 2) then escape_argument t c else t) c

abbrev control : Console → ℕ → Console
control t c =
    if c == 10
    then record (tty_new_line t) { col = 0 }
    else if c == 8
    then (if slt16 0 t.col then record t { col = sub16 t.col 1 } else t)
    else if c == 27
    then record t { in_escape_code = true; esc_stage = 0 }
    else t

-- The cursor steps on, and to the next line at the end of one.
abbrev advance : Console → Console
advance t =
    let next : Console = record t { col = add16 t.col 1 } in
    if slt16 next.col vga_text_width then next else tty_new_line (record next { col = 0 })

-- A byte outside an escape code.
unfoldable pub putc_text : Console → ℕ → Console
putc_text t c =
    if is_printable c then advance (call_vga (vga_put_char_at c t.row t.col) t) else control t c

unfoldable pub tty_putc : Console → ℕ → Console
tty_putc t c = if t.in_escape_code then handle_escapes t c else putc_text t c
