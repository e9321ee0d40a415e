-- ===== src/Driver/Tty/Screen.antt =====
-- kernel/driver/tty.c: where the cursor can go.
use pi_os.Common.{
  ℕ, zero, suc, ◌<◌, ◌≤◌, ◌≡◌, ◌≢◌, ◌⊎◌, arith, true, ◌==◌, leb, ◌&&◌, refl, ◌∙◌, ==→ne, ◌∷◌,
  if◌then◌else◌, Bool-cases, inl, inr,
}
use pi_os.Common.Word.{max16}
use pi_os.Driver.Tty.Console.{
  Console, vga_text_width, vga_text_height, tty_new_line, new_lines, escape_command, handle_escapes,
  escape_argument, escape_next, escape_final, putc_text, vga_put_char_at, tty_putc,
}

-- The cursor is on the screen, and an escape code is not past its second argument.
pub record IsValid (t : Console) : Type 0 where
  pub row_in : t.row < vga_text_height
  pub col_in : t.col < vga_text_width
  pub stage_in : t.esc_stage < 3

-- The arguments of an escape code are small: a digit more, and a step of the cursor, do not
-- overflow an `int`.
pub record HasSmallArgs (t : Console) : Type 0 where
  pub small0 : t.esc_arg0 < 3000
  pub small1 : t.esc_arg1 < 3000

module _ (t : Console) (r : t.row < vga_text_height) where
  tty_new_line_row : (tty_new_line t).row < vga_text_height
  unfolding tty_new_line
  tty_new_line_row = ground arith

  tty_new_line_col : (tty_new_line t).col ≡ t.col
  unfolding tty_new_line
  tty_new_line_col = ground arith

  tty_new_line_stage : (tty_new_line t).esc_stage ≡ t.esc_stage
  unfolding tty_new_line
  tty_new_line_stage = ground arith

new_lines_on_screen :
    (n : ℕ) (t : Console)
    → t.row < vga_text_height
    → ((new_lines n t).row < vga_text_height) × ((new_lines n t).col ≡ t.col)
unfolding new_lines
new_lines_on_screen zero t r = (r, refl)
new_lines_on_screen (suc n) t r =
    let (r', c') = new_lines_on_screen n (tty_new_line t) (tty_new_line_row t r) in
    (r', c' ∙ tty_new_line_col t r)

-- `ESC [ n A` moves up n rows, and one at least.
abbrev pub rows_up : Console → ℕ
rows_up t = if t.esc_arg0 == 0 then 1 else t.esc_arg0

escape_command_on_screen :
    (t : Console) (c : ℕ)
    → t.row < vga_text_height
    → t.col < vga_text_width
    → HasSmallArgs t
    → (c ≡ b'A' → rows_up t ≤ t.row)
    → ((escape_command t c).row < vga_text_height) × ((escape_command t c).col < vga_text_width)
unfolding escape_command
escape_command_on_screen t c r k small h =
    ground (arith, new_lines_on_screen (max16 t.esc_arg0 1) t)

-- The byte ends an escape code that moves the cursor up past the first row.
pub record GoesAbove (t : Console) (c : ℕ) : Type 0 where
  pub in_code : t.in_escape_code ≡ true
  pub past_start : t.esc_stage ≢ 0
  pub is_up : c ≡ b'A'
  pub too_far : t.row < rows_up t

-- A byte after the start of an escape code leaves the cursor alone, or is the final byte.
escape_argument_cases :
    (t : Console) (c : ℕ)
    → t.esc_stage ≢ 0
    → t.esc_stage < 3
    → let t' = escape_argument t c in
      ((t'.esc_stage < 3) × (t'.row ≡ t.row) × (t'.col ≡ t.col) × (c ≢ b'A'))
      ⊎ (t' ≡ record t { esc_stage = 3 })
unfolding escape_argument
escape_argument_cases t c h k = elim (Bool-cases (c == b';')) [
  | inl semi ↦ rw semi (elim (Bool-cases (t.esc_stage == 1)) [
    | inl one ↦ inl (ground arith, ground arith, ground arith, ground arith)
    | inr two ↦ inr (ground arith)
  ])
  | inr other ↦ rw other (elim (Bool-cases (leb b'0' c && leb c b'9')) [
    | inl digit ↦ rw digit (inl (ground arith, ground arith, ground arith, ground arith))
    | inr last ↦ rw last (inr refl)
  ])
]

-- What a byte after the start of an escape code does.
after_argument :
    (t : Console) (c : ℕ)
    → t.esc_stage ≢ 0
    → t.esc_stage < 3
    → handle_escapes t c ≡ escape_next (escape_argument t c) c
unfolding handle_escapes
after_argument t c h k = ground arith

module _ (t : Console) (c : ℕ) (v : IsValid t) (small : HasSmallArgs t) where
  final_byte :
      (c ≡ b'A' → rows_up t ≤ t.row) → IsValid (escape_final (record t { esc_stage = 3 }) c)
  final_byte h =
      let (r, k) =
        escape_command_on_screen (record t { esc_stage = 3 }) c v.row_in v.col_in
          (record { small0 = small.small0; small1 = small.small1 }) h in
      record { row_in = r; col_in = k; stage_in = omega arith }

  handle_escapes-IsValid :
      (t.esc_stage ≢ 0 → c ≡ b'A' → rows_up t ≤ t.row) → IsValid (handle_escapes t c)
  unfolding handle_escapes
  handle_escapes-IsValid h = elim (Bool-cases (t.esc_stage == 0)) [
    | inl zeroth ↦ rw zeroth (ground arith)
    | inr later ↦
        rw (after_argument t c (==→ne _ _ later) v.stage_in)
          (elim (escape_argument_cases t c (==→ne _ _ later) v.stage_in) [
            | inl kept ↦ ground arith
            | inr final ↦ rw final (ground (arith, final_byte (h (==→ne _ _ later))))
          ])
  ]

  handle_escapes_above :
      t.esc_stage ≢ 0 → c ≡ b'A' → t.row < rows_up t → vga_text_height ≤ (handle_escapes t c).row
  unfolding escape_command
  handle_escapes_above later up far =
      rw (after_argument t c later v.stage_in) (elim (escape_argument_cases t c later v.stage_in) [
        | inl kept ↦ absurd (kept.3 up)
        | inr final ↦ rw final (ground arith)
      ])

putc_text-IsValid : (t : Console) (c : ℕ) → IsValid t → IsValid (putc_text t c)
unfolding putc_text
putc_text-IsValid t c v =
    let wrapped : Console = record t { col = 0; calls = vga_put_char_at c t.row t.col ∷ t.calls } in
    ground (
      arith,
      tty_new_line_row t,
      tty_new_line_stage t,
      tty_new_line_row wrapped,
      tty_new_line_col wrapped,
      tty_new_line_stage wrapped,
    )

-- When the cursor is on the screen, an escape code is not past its second argument, and both of its
-- arguments so far are below 3000, a byte that is put on the console keeps this so for the cursor and
-- the stage, unless it ends an escape code that moves the cursor up by more rows than there are above
-- it; such a byte leaves the row outside the screen.
pub tty_putc-IsValid :
    (t : Console) (c : ℕ)
    → IsValid t
    → HasSmallArgs t
    → (¬ GoesAbove t c → IsValid (tty_putc t c))
      × (GoesAbove t c → vga_text_height ≤ (tty_putc t c).row)
unfolding tty_putc
tty_putc-IsValid t c v small = (keeps, loses)
  where
    keeps : ¬ GoesAbove t c → IsValid (tty_putc t c)
    keeps h = elim (Bool-cases t.in_escape_code) [
      | inl code ↦ simp code (
          handle_escapes-IsValid t c v small λ later up. ground (
            arith,
            λ (far : t.row < rows_up t).
                h (record { in_code = code; past_start = later; is_up = up; too_far = far }),
          ))
      | inr text ↦ simp text (putc_text-IsValid t c v)
    ]

    loses : GoesAbove t c → vga_text_height ≤ (tty_putc t c).row
    loses g = simp g.in_code (handle_escapes_above t c v small g.past_start g.is_up g.too_far)
