-- ===== src/Driver/Tty/Edit.antt =====
-- kernel/driver/tty.c against a line editor: what is typed reaches `read_rb` a line at a time, as the
-- backspaces left it.
use pi_os.Common.{
  ℕ, zero, suc, ◌+◌, ◌-◌, ◌<◌, ◌≤◌, ◌≡◌, ◌≢◌, ◌∙◌, refl, ap, ap₂, subst, sym, arith, Option, none,
  some, List, [], ◌∷◌, ◌++◌, length, take, set, length-set, Bool-cases, ne→==, ◌==◌, if◌then◌else◌,
  inl, inr,
}
use pi_os.Libk.Ringbuff.Inv.{IsValid}
use pi_os.Driver.Tty.Console.{Console, is_printable}
use pi_os.Driver.Tty.Line.{Typed, linebuff_putc, tty_linebuff_erase, tty_submit_char}

-- The line that is being typed.
abbrev pub line : Typed → List ℕ
line t = take t.line_buff_len t.line_buff

-- The array is whole, the line is inside it, and the semaphore is binary.
pub record IsReady (t : Typed) : Type 0 where
  pub whole : length t.line_buff ≡ 128
  pub len_in : t.line_buff_len ≤ 128
  pub binary : t.read_data_signal ≤ 1
  pub ring : IsValid t.read_rb

abbrev pub but_last : List ℕ → List ℕ
but_last [] = []
but_last (x ∷ []) = []
but_last (x ∷ y ∷ xs) = x ∷ but_last (y ∷ xs)

-- The line editor: a backspace takes the last character back.
abbrev pub edit : List ℕ → ℕ → List ℕ
edit l c = if c == 8 then but_last l else l ++ (c ∷ [])

take-set_end :
    (n : ℕ) (xs : List ℕ) (c : ℕ)
    → n < length xs
    → take (suc n) (set xs n c) ≡ take n xs ++ (c ∷ [])
take-set_end n [] c h = absurd (omega arith)
take-set_end zero (x ∷ xs) c h = refl
take-set_end (suc n) (x ∷ xs) c h = ap (λ t. x ∷ t) (take-set_end n xs c (omega arith))

but_last-take : (n : ℕ) (xs : List ℕ) → n < length xs → but_last (take (suc n) xs) ≡ take n xs
but_last-take n [] h = absurd (omega arith)
but_last-take zero (x ∷ xs) h = refl
but_last-take (suc n) (x ∷ []) h = absurd (omega arith)
but_last-take (suc n) (x ∷ y ∷ xs) h = ap (λ t. x ∷ t) (but_last-take n (y ∷ xs) (omega arith))

abbrev pub edits : List ℕ → List ℕ → List ℕ
edits l [] = l
edits l (c ∷ cs) = edits (edit l c) cs

-- The line is now `l`, which has grown by one at most, and the ring has not changed.
pub record Edited (t : Typed) (l : List ℕ) (t' : Typed) : Type 0 where
  pub ready : IsReady t'
  pub now : line t' ≡ l
  pub grown : t'.line_buff_len ≤ t.line_buff_len + 1
  pub same_ring : t'.read_rb ≡ t.read_rb
  pub same_signal : t'.read_data_signal ≡ t.read_data_signal

pub linebuff_putc-Edited :
    (t : Typed) (c : ℕ)
    → IsReady t
    → t.line_buff_len < 128
    → Edited t (line t ++ (c ∷ [])) (linebuff_putc t c)
linebuff_putc-Edited t c r h =
    let stored : Typed = record t {
      line_buff = set t.line_buff t.line_buff_len c;
      line_buff_len = suc t.line_buff_len;
    } in
    let e : linebuff_putc t c ≡ stored = unfold linebuff_putc in ground arith in
    rw e record {
      ready = record {
        whole = omega (arith, length-set t.line_buff t.line_buff_len c);
        len_in = omega arith;
        binary = r.binary;
        ring = r.ring;
      };
      now = take-set_end t.line_buff_len t.line_buff c (omega arith);
      grown = omega arith;
      same_ring = refl;
      same_signal = refl;
    }

but_last-take_pred : (n : ℕ) (xs : List ℕ) → n ≤ length xs → take (n - 1) xs ≡ but_last (take n xs)
but_last-take_pred zero xs h = refl
but_last-take_pred (suc n) xs h =
    ap (λ k. take k xs) (omega arith) ∙ sym (but_last-take n xs (omega arith))

tty_linebuff_erase_fields :
    (t : Typed)
    → t.line_buff_len ≤ 128
    → let t' = tty_linebuff_erase t in
      (t'.line_buff_len ≡ t.line_buff_len - 1)
      × (t'.line_buff ≡ t.line_buff)
      × (t'.read_rb ≡ t.read_rb)
      × (t'.read_data_signal ≡ t.read_data_signal)
unfolding tty_linebuff_erase
tty_linebuff_erase_fields t h = (ground arith, ground arith, ground arith, ground arith)

tty_linebuff_erase-Edited :
    (t : Typed) → IsReady t → Edited t (but_last (line t)) (tty_linebuff_erase t)
tty_linebuff_erase-Edited t r =
    let (len, buff, ring, signal) = tty_linebuff_erase_fields t r.len_in in
    record {
      ready = record {
        whole = ap (length {0}) buff ∙ r.whole;
        len_in = omega arith;
        binary = omega arith;
        ring = subst IsValid (sym ring) r.ring;
      };
      now = ap₂ take len buff ∙ but_last-take_pred t.line_buff_len t.line_buff (omega arith);
      grown = omega arith;
      same_ring = ring;
      same_signal = signal;
    }

-- What a call of `tty_submit_char` for a key other than the newline comes to.
abbrev pub Submits : Typed → List ℕ → Option Typed → Type 0
Submits t l none = ⊥
Submits t l (some t') = Edited t l t'

-- The console has no part in it.
recolored :
    (t t' : Typed) (l : List ℕ) (k : Console)
    → Edited t l t'
    → Edited t l (record t' { console = k })
recolored t t' l k e = record {
  ready = record {
    whole = e.ready.whole;
    len_in = e.ready.len_in;
    binary = e.ready.binary;
    ring = e.ready.ring;
  };
  now = e.now;
  grown = e.grown;
  same_ring = e.same_ring;
  same_signal = e.same_signal;
}

linebuff_putc-console :
    (t : Typed) (c : ℕ) (k : Console)
    → linebuff_putc (record t { console = k }) c ≡ record (linebuff_putc t c) { console = k }
unfolding linebuff_putc
linebuff_putc-console t c k = ground arith

pub tty_submit_char-edit :
    (t : Typed) (c : ℕ)
    → IsReady t
    → t.line_buff_len < 128
    → c ≢ 10
    → Submits t (edit (line t) c) (tty_submit_char t c)
unfolding tty_submit_char
tty_submit_char-edit t c r h ne = elim (Bool-cases (is_printable c)) [
  | inl printable ↦
      rw (printable, ne→== c 8 (ground arith))
        (recolored t (linebuff_putc t c) _ _ (linebuff_putc-Edited t c r h))
  | inr control ↦
      rw (control, ne→== c 10 ne)
        (elim (Bool-cases (c == 8)) [
          | inl erase ↦ rw erase (tty_linebuff_erase-Edited t r)
          | inr other ↦
              rw (other, linebuff_putc-console t c _)
                (recolored t (linebuff_putc t c) _ _ (linebuff_putc-Edited t c r h))
        ])
]
