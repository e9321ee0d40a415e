-- ===== src/Driver/Tty/Lines.antt =====
-- kernel/driver/tty.c: whole lines, from the keys to `read_rb`.
use pi_os.Common.{
  ℕ, ◌+◌, ◌-◌, ◌<◌, ◌≤◌, ◌≡◌, ◌≢◌, refl, arith, Option, none, some, List, [], ◌∷◌, ◌++◌, length,
  take,
}
use pi_os.Libk.Ringbuff.{ringbuff_length}
use pi_os.Libk.Ringbuff.Inv.{contents}
use pi_os.Libk.Ringbuff.Refine.{ringbuff_write-append}
use pi_os.Libk.Semaphore.{semaphore_binary_up, takes}
use pi_os.Driver.Tty.Line.{Typed, tty_submit_line_buff, linebuff_putc, tty_submit_char, end_line}
use pi_os.Driver.Tty.Edit.{
  line, IsReady, edit, edits, Edited, Submits, linebuff_putc-Edited, tty_submit_char-edit,
}

-- What a whole line comes to: the ring holds more, the line is empty, and the reader is signalled.
pub record Ended (t : Typed) (l : List ℕ) (t' : Typed) : Type 0 where
  pub ready : IsReady t'
  pub empty : line t' ≡ []
  pub stored :
      contents t'.read_rb
      ≡ contents t.read_rb ++ take (t.read_rb.size - 1 - ringbuff_length t.read_rb) l
  pub signalled : t'.read_data_signal ≡ 1

abbrev pub Ends : Typed → List ℕ → Option Typed → Type 0
Ends t l none = ⊥
Ends t l (some t') = Ended t l t'

semaphore_binary_up_one : (n : ℕ) → n ≤ 1 → semaphore_binary_up n ≡ takes 1
unfolding semaphore_binary_up
semaphore_binary_up_one n h = ground arith

tty_submit_line_buff-Ends : (t : Typed) → IsReady t → Ends t (line t) (tty_submit_line_buff t)
unfolding tty_submit_line_buff
tty_submit_line_buff-Ends t r =
    let (wlen, bytes, valid, size) = ringbuff_write-append (line t) r.ring in
    rw (semaphore_binary_up_one t.read_data_signal r.binary) record {
      ready = record { whole = r.whole; len_in = omega arith; binary = omega arith; ring = valid };
      empty = refl;
      stored = bytes;
      signalled = refl;
    }

-- What has ended the line that `u` holds has ended `l`, which is typed in the ring of `t`.
Ended-of : (t u t' : Typed) (l : List ℕ) → Edited t l u → Ended u (line u) t' → Ended t l t'
Ended-of t u t' l e d = record {
  ready = d.ready;
  empty = d.empty;
  stored = cc (d.stored, e.now, e.same_ring);
  signalled = d.signalled;
}

end_line-Ends :
    (t u : Typed) (l : List ℕ) (o : Option Typed)
    → Edited t l u
    → Ends u (line u) o
    → Ends t l (end_line o)
end_line-Ends t u l none e d = d
end_line-Ends t u l (some t') e d =
    let f = Ended-of t u t' l e d in
    record {
      ready = record {
        whole = f.ready.whole;
        len_in = f.ready.len_in;
        binary = f.ready.binary;
        ring = f.ready.ring;
      };
      empty = f.empty;
      stored = f.stored;
      signalled = f.signalled;
    }

-- The newline ends the line, and is its last character.
tty_submit_char_newline :
    (t : Typed)
    → IsReady t
    → t.line_buff_len < 128
    → Ends t (line t ++ (10 ∷ [])) (tty_submit_char t 10)
unfolding tty_submit_char
tty_submit_char_newline t r h =
    let e = linebuff_putc-Edited t 10 r h in
    end_line-Ends t (linebuff_putc t 10) _ _ e (tty_submit_line_buff-Ends _ e.ready)

abbrev pub then_chars : Option Typed → (Typed → Option Typed) → Option Typed
then_chars none rest = none
then_chars (some t) rest = rest t

-- The keys are given to `tty_submit_char` one by one.
abbrev pub submit_chars : Typed → List ℕ → Option Typed
submit_chars t [] = some t
submit_chars t (c ∷ cs) = then_chars (tty_submit_char t c) λ t'. submit_chars t' cs

abbrev pub NoNewline : List ℕ → Type 0
NoNewline [] = Unit {0}
NoNewline (c ∷ cs) = (c ≢ 10) × NoNewline cs

after_key :
    (t : Typed) (l m : List ℕ) (o : Option Typed) (rest : Typed → Option Typed)
    → Submits t l o
    → ((t' : Typed) → Edited t l t' → Ends t' m (rest t'))
    → Ends t m (then_chars o rest)
after_key t l m none rest e h = e
after_key t l m (some t') rest e h = kept (rest t') (h t' e)
  where
    kept : (o : Option Typed) → Ends t' m o → Ends t m o
    kept none d = d
    kept (some u) d = record {
      ready = d.ready;
      empty = d.empty;
      stored = cc (d.stored, e.same_ring);
      signalled = d.signalled;
    }

-- From a ready terminal with room for them, the keys of a line and the newline never panic. They add to
-- what `read_rb` holds the line as the backspaces left it, with its newline, cut where the ring is
-- full; then the line is empty, the terminal is ready, and the reader is signalled.
pub submit_chars-edits :
    (cs : List ℕ) (t : Typed)
    → IsReady t
    → t.line_buff_len + length cs < 128
    → NoNewline cs
    → Ends t (edits (line t) cs ++ (10 ∷ [])) (submit_chars t (cs ++ (10 ∷ [])))
submit_chars-edits [] t r h n =
    also (tty_submit_char t 10) (tty_submit_char_newline t r (omega arith))
  where
    also :
        (o : Option Typed)
        → Ends t (line t ++ (10 ∷ [])) o
        → Ends t (line t ++ (10 ∷ [])) (then_chars o some)
    also none d = d
    also (some u) d = d
submit_chars-edits (c ∷ cs) t r h n =
    after_key t (edit (line t) c) (edits (edit (line t) c) cs ++ (10 ∷ [])) (tty_submit_char t c)
      (λ t'. submit_chars t' (cs ++ (10 ∷ []))) (tty_submit_char-edit t c r (omega arith) n.0)
      λ t' e. rw (← e.now) (submit_chars-edits cs t' e.ready (omega arith) n.1)
