-- ===== src/Libc/Printf/Agree.antt =====
-- printf.c against kprintf.c: the two print the same bytes.
use pi_os.Common.{
  ℕ, ◌≡◌, refl, sym, ap, subst, ap₂, ◌∙◌, arith, Bool, true, ◌||◌, Bool-cases, inl, inr, Option,
  none, some, List, [], ◌∷◌, ◌++◌, append_assoc, append-nil, ◌==◌, if◌then◌else◌,
}
use pi_os.Common.Word.{neg16, is_neg16}
use pi_os.Libc.Strings.{CString}
use pi_os.Libc.Strings.Compare.{text}
use pi_os.Libk.Kprintf as Kprintf
use pi_os.Libk.Kprintf.{
  Arg, word, string, long, At, at_head, after_percent, after_long, utoa, vsprintf, digits, swapped,
  swap_loop,
}
use pi_os.Libc.Printf as Printf
use pi_os.Libc.Printf.{
  Out, printf_putc, printf_write, printf_utoa, print_signed, bytes_out, printf_core,
}

-- All that is printed, in order.
abbrev pub printed : List Out → List ℕ
printed [] = []
printed (out ∷ outs) = bytes_out out ++ printed outs

abbrev pub map_printed : Option (List Out) → Option (List ℕ)
map_printed none = none
map_printed (some outs) = some (printed outs)

abbrev pub is_conversion : ℕ → Bool
is_conversion c =
    (c == b'd') || (c == b'i') || (c == b'u') || (c == b'x') || (c == b's') || (c == b'c')

-- Every `%` of the format is followed by one of these conversions.
abbrev pub IsPlain : At → CString → Type 0
IsPlain at_head [] = Unit {0}
IsPlain after_percent [] = ⊥
IsPlain after_long str = ⊥
IsPlain at_head (c ∷ str) = IsPlain (if c == b'%' then after_percent else at_head) str
IsPlain after_percent (c ∷ str) = (is_conversion c ≡ true) × IsPlain at_head str

printed-append : (xs ys : List Out) → printed (xs ++ ys) ≡ printed xs ++ printed ys
printed-append [] ys = refl
printed-append (x ∷ xs) ys =
    ap (λ t. bytes_out x ++ t) (printed-append xs ys)
    ∙ sym (append_assoc (bytes_out x) (printed xs) (printed ys))

printed-printf_utoa : (num base : ℕ) → printed (printf_utoa num base) ≡ utoa num base
unfolding utoa swap_loop
printed-printf_utoa num base = elim (Bool-cases (num == 0)) [
  | inl is_zero ↦ rw is_zero refl
  | inr more ↦ rw more (append-nil (swapped (digits num num base)))
]

printed-print_signed : (w : ℕ) → printed (print_signed w) ≡ Kprintf.signed w
printed-print_signed w = elim (Bool-cases (is_neg16 w)) [
  | inl negative ↦ rw negative (ap (λ t. b'-' ∷ t) (printed-printf_utoa (neg16 w) 10))
  | inr positive ↦ rw positive (printed-printf_utoa w 10)
]

map_printed-prepend :
    (outs : List Out) (o : Option (List Out))
    → map_printed (Printf.prepend outs o) ≡ Kprintf.prepend (printed outs) (map_printed o)
map_printed-prepend outs none = refl
map_printed-prepend outs (some rest) = ap some (printed-append outs rest)

module _ (rest : At → List Arg → Option (List Out)) (rest' : At → List Arg → Option (List ℕ))
    (same : (args : List Arg) → map_printed (rest at_head args) ≡ rest' at_head args) where
  -- A conversion of a word, and one of a string
  take_word_agrees :
      (f : ℕ → List Out) (g : ℕ → List ℕ)
      → ((w : ℕ) → printed (f w) ≡ g w)
      → (args : List Arg)
      → map_printed (Printf.then_format (Printf.take_word f args) rest)
        ≡ Kprintf.then_format (Kprintf.take_word g args) rest'
  take_word_agrees f g h [] = refl
  take_word_agrees f g h (word w ∷ args) =
      map_printed-prepend (f w) (rest at_head args) ∙ ap₂ Kprintf.prepend (h w) (same args)
  take_word_agrees f g h (string s ∷ args) = refl
  take_word_agrees f g h (long n ∷ args) = refl

  take_string_agrees :
      (args : List Arg)
      → map_printed (Printf.then_format (Printf.take_string args) rest)
        ≡ Kprintf.then_format (Kprintf.take_string args) rest'
  take_string_agrees [] = refl
  take_string_agrees (word w ∷ args) = refl
  take_string_agrees (string s ∷ args) =
      map_printed-prepend (printf_write (text s) ∷ []) (rest at_head args)
      ∙ ap₂ Kprintf.prepend (append-nil (text s)) (same args)
  take_string_agrees (long n ∷ args) = refl

  conversion_agrees :
      (c : ℕ) (args : List Arg)
      → is_conversion c ≡ true
      → map_printed (Printf.then_format (Printf.percent_step c args) rest)
        ≡ Kprintf.then_format (Kprintf.percent_step c args) rest'
  unfolding Printf.percent_step Kprintf.percent_step
  conversion_agrees c args h = elim (Bool-cases ((c == b'd') || (c == b'i'))) [
    | inl is_d ↦ rw is_d (take_word_agrees _ _ printed-print_signed args)
    | inr not_d ↦ rw not_d (elim (Bool-cases (c == b'u')) [
      | inl is_u ↦ rw is_u (take_word_agrees _ _ (λ w. printed-printf_utoa w 10) args)
      | inr not_u ↦ rw not_u (elim (Bool-cases (c == b'x')) [
        | inl is_x ↦ rw is_x (take_word_agrees _ _ (λ w. printed-printf_utoa w 16) args)
        | inr not_x ↦ rw not_x (elim (Bool-cases (c == b's')) [
          | inl is_s ↦ rw is_s (take_string_agrees args)
          | inr not_s ↦ rw not_s (elim (Bool-cases (c == b'c')) [
            | inl is_c ↦ rw is_c (take_word_agrees _ _ (λ w. refl) args)
            | inr not_c ↦ absurd (ground (arith, h, not_d, not_u, not_x, not_s, not_c))
          ])
        ])
      ])
    ])
  ]

-- For a format in which one of d, i, u, x, s and c follows every `%`, printf of the libc prints the
-- bytes that vsprintf of the kernel stores, from the same arguments; one finds an argument missing when the other does.
pub printf_core-vsprintf :
    (at : At) (format : CString) (args : List Arg)
    → IsPlain at format
    → map_printed (printf_core at format args) ≡ vsprintf at format args
unfolding printf_core vsprintf
printf_core-vsprintf at_head [] args h = refl
printf_core-vsprintf after_percent [] args h = absurd h
printf_core-vsprintf after_long format args h = absurd h
printf_core-vsprintf at_head (c ∷ format) args h = elim (Bool-cases (c == b'%')) [
  | inl percent ↦ rw percent (
      map_printed-prepend [] (printf_core after_percent format args)
      ∙ ap (Kprintf.prepend []) (
          printf_core-vsprintf after_percent format args
            (subst (λ b. IsPlain (if b then after_percent else at_head) format) percent h)))
  | inr other ↦ rw other (
      map_printed-prepend (printf_putc c ∷ []) (printf_core at_head format args)
      ∙ ap (Kprintf.prepend (c ∷ [])) (
          printf_core-vsprintf at_head format args
            (subst (λ b. IsPlain (if b then after_percent else at_head) format) other h)))
]
printf_core-vsprintf after_percent (c ∷ format) args h =
    conversion_agrees (λ next left. printf_core next format left)
      (λ next left. vsprintf next format left)
      (λ left. printf_core-vsprintf at_head format left h.1) c args h.0
