-- ===== src/Proc/Handler/Layout.antt =====
-- The structures of signal.c and their bytes.
use pi_os.Common.{
  ℕ, ◌*◌, ◌<◌, ◌≡◌, refl, ap, ap₂, ◌∙◌, arith, List, [], ◌∷◌, ◌++◌, length, length-append,
  take-prefix, drop-prefix,
}
use pi_os.Proc.{ProcState}
use pi_os.Proc.Handler.{bytes_of, words_of, state_words, state_of}

abbrev pub AllWords : List ℕ → Type 0
AllWords [] = Unit {0}
AllWords (w ∷ ws) = (w < 0x1_0000) × AllWords ws

-- The tables have their sizes, and every entry is a word.
pub record IsWhole (st : ProcState) : Type 0 where
  pub eight : length st.regs ≡ 8
  pub mem_sixteen : length st.mem_pages ≡ 16
  pub prog_sixteen : length st.prog_pages ≡ 16
  pub words : AllWords (state_words st)

pub length-bytes_of : (ws : List ℕ) → length (bytes_of ws) ≡ 2 * length ws
unfolding bytes_of
length-bytes_of [] = refl
length-bytes_of (w ∷ ws) = omega (arith, length-bytes_of ws)

words_of-bytes_of : (ws : List ℕ) → AllWords ws → words_of (bytes_of ws) ≡ ws
unfolding words_of bytes_of
words_of-bytes_of [] h = refl
words_of-bytes_of (w ∷ ws) h = ap₂ ◌∷◌ (omega arith) (words_of-bytes_of ws h.1)

pub length-state_words : (st : ProcState) → IsWhole st → length (state_words st) ≡ 42
length-state_words st w = omega (
  arith,
  w.eight,
  w.mem_sixteen,
  w.prog_sixteen,
  length-append st.regs (st.pc ∷ st.arith_flags ∷ st.mem_pages ++ st.prog_pages),
  length-append st.mem_pages st.prog_pages,
)

state_of-state_words : (st : ProcState) → IsWhole st → state_of (state_words st) ≡ st
unfolding state_of
state_of-state_words st w =
    let rest = st.pc ∷ st.arith_flags ∷ st.mem_pages ++ st.prog_pages in
    simp
      (
        take-prefix 8 st.regs rest (omega (arith, w.eight)),
        drop-prefix 8 st.regs rest (omega (arith, w.eight)),
        take-prefix 16 st.mem_pages st.prog_pages (omega (arith, w.mem_sixteen)),
        drop-prefix 16 st.mem_pages st.prog_pages (omega (arith, w.mem_sixteen)),
      )
      refl

pub state_of-bytes :
    (st : ProcState) → IsWhole st → state_of (words_of (bytes_of (state_words st))) ≡ st
state_of-bytes st w =
    ap state_of (words_of-bytes_of (state_words st) w.words) ∙ state_of-state_words st w
