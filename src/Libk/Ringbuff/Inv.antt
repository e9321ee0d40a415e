-- ===== src/Libk/Ringbuff/Inv.antt =====
-- The invariant of `struct ringbuff`, and what one byte written or read does to it.
use pi_os.Common.{
  ℕ, zero, suc, ◌+◌, ◌-◌, ◌≤◌, ◌<◌, ◌≡◌, ◌≢◌, refl, ap, ◌∙◌, true, false, arith, List, [], ◌∷◌,
  ◌++◌, length, length-set, get_or, set, get_or-set_self, get_or-set_ne, ap₂, ltb, if◌then◌else◌,
}
use pi_os.Libk.Ringbuff.{Ringbuff, ringbuff_length, is_full, put_byte, skip_byte, step_index}

pub record IsValid (rb : Ringbuff) : Type 0 where
  pub storage : rb.size ≤ length rb.buff
  pub small : rb.size < 0x1_0000
  pub head_in : rb.head < rb.size
  pub tail_in : rb.tail < rb.size

module _ (buff : List ℕ) (size : ℕ) where
  -- The `n` bytes from index `i` on, going round at `size`.
  abbrev pub window : ℕ → ℕ → List ℕ
  window i zero = []
  window i (suc n) = get_or buff i 0 ∷ window (step_index size i) n

-- The bytes that the buffer holds, oldest first.
abbrev pub contents : Ringbuff → List ℕ
contents rb = window rb.buff rb.size rb.tail (ringbuff_length rb)

pub length-window : (buff : List ℕ) (size i n : ℕ) → length (window buff size i n) ≡ n
length-window buff size i zero = refl
length-window buff size i (suc n) = omega (arith, length-window buff size (step_index size i) n)

pub length-contents : (rb : Ringbuff) → length (contents rb) ≡ ringbuff_length rb
length-contents rb = length-window rb.buff rb.size rb.tail (ringbuff_length rb)

-- Writing just past a window extends it.
window-set :
    (buff : List ℕ) (size x n i j : ℕ)
    → size ≤ length buff
    → size < 0x1_0000
    → i < size
    → n < size
    → j ≡ (if ltb (i + n) size then i + n else i + n - size)
    → window (set buff j x) size i (suc n) ≡ window buff size i n ++ (x ∷ [])
window-set buff size x zero i j hs hw hi hn e =
    ap₂ ◌∷◌ (ground (arith, get_or-set_self buff i x 0)) refl
window-set buff size x (suc n) i j hs hw hi hn e =
    ap₂ ◌∷◌ (get_or-set_ne buff j i x 0 (ground arith)) (
      window-set buff size x n (step_index size i) j hs hw (ground arith) (omega arith)
        (ground arith))

module _ {rb : Ringbuff} (v : IsValid rb) where
  pub length-lt-size : ringbuff_length rb < rb.size
  unfolding ringbuff_length
  length-lt-size = ground arith

  pub is_full-true : is_full rb ≡ true → ringbuff_length rb + 1 ≡ rb.size
  unfolding ringbuff_length
  is_full-true h = ground arith

  pub is_full-false : is_full rb ≡ false → ringbuff_length rb + 1 < rb.size
  unfolding ringbuff_length
  is_full-false h = ground arith

  pub put_byte-IsValid : (x : ℕ) → IsValid (put_byte rb x)
  put_byte-IsValid x = ground (arith, length-set rb.buff rb.head x)

  pub length-put_byte :
      (x : ℕ)
      → ringbuff_length rb + 1 < rb.size
      → ringbuff_length (put_byte rb x) ≡ suc (ringbuff_length rb)
  unfolding ringbuff_length
  length-put_byte x h = ground arith

  pub length-put_byte_full :
      (x : ℕ) → ringbuff_length rb + 1 ≡ rb.size → ringbuff_length (put_byte rb x) ≡ 0
  unfolding ringbuff_length
  length-put_byte_full x h = ground arith

  head_at : rb.head ≡ (
      if ltb (rb.tail + ringbuff_length rb) rb.size
      then rb.tail + ringbuff_length rb
      else rb.tail + ringbuff_length rb - rb.size)
  unfolding ringbuff_length
  head_at = ground arith

  pub contents-put_byte :
      (x : ℕ)
      → ringbuff_length rb + 1 < rb.size
      → contents (put_byte rb x) ≡ contents rb ++ (x ∷ [])
  contents-put_byte x h =
      ap (window (set rb.buff rb.head x) rb.size rb.tail) (length-put_byte x h)
      ∙ window-set rb.buff rb.size x (ringbuff_length rb) rb.tail rb.head v.storage v.small
          v.tail_in (omega arith) head_at

  pub skip_byte-IsValid : IsValid (skip_byte rb)
  skip_byte-IsValid = ground arith

  pub length-skip_byte :
      rb.tail ≢ rb.head → ringbuff_length rb ≡ suc (ringbuff_length (skip_byte rb))
  unfolding ringbuff_length
  length-skip_byte h = ground arith

  pub length-empty : rb.tail ≡ rb.head → ringbuff_length rb ≡ 0
  unfolding ringbuff_length
  length-empty h = ground arith

  pub contents-skip_byte :
      rb.tail ≢ rb.head → contents rb ≡ get_or rb.buff rb.tail 0 ∷ contents (skip_byte rb)
  contents-skip_byte h = ap (window rb.buff rb.size rb.tail) (length-skip_byte h)
