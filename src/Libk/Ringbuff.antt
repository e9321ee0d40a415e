-- ===== src/Libk/Ringbuff.antt =====
-- kernel/libk/ringbuff.c: a byte ring with one index always free.
-- A function that updates `*rb` returns the new ring. A byte is only moved, so it is any number.
pub mod Inv
pub mod Refine
mod Tests
use pi_os.Common.{
  ℕ, zero, suc, ◌+◌, ◌-◌, ◌%◌, Bool, ◌&&◌, ◌||◌, List, [], ◌∷◌, ltb, leb, ◌==◌, if◌then◌else◌,
  get_or, set,
}
use pi_os.Common.Word.{u16_mod, add16, sub16}

-- `struct ringbuff`
pub record Ringbuff : Type 0 where
  pub head : ℕ
  pub tail : ℕ
  pub size : ℕ
  pub buff : List ℕ

-- `storage` is what `kmalloc(size)` returns, its bytes not yet written.
pub ringbuff_init : (storage : List ℕ) → ℕ → Ringbuff
ringbuff_init storage size = record { head = 0; tail = 0; size = add16 size 1; buff = storage }

unfoldable pub ringbuff_length : Ringbuff → ℕ
ringbuff_length rb =
    if leb rb.tail rb.head then rb.head - rb.tail else sub16 (add16 rb.head rb.size) rb.tail

-- `if (++i == rb->size) i = 0`
abbrev pub step_index : ℕ → ℕ → ℕ
step_index size i = let j : ℕ = add16 i 1 in if j == size then 0 else j

-- The test that ends the loop of `ringbuff_write`.
abbrev pub is_full : Ringbuff → Bool
is_full rb = (rb.head == sub16 rb.tail 1) || ((rb.tail == 0) && (rb.head == sub16 rb.size 1))

-- `rb->buff[rb->head] = x`, and the step of `head`.
abbrev pub put_byte : Ringbuff → ℕ → Ringbuff
put_byte rb x = record rb { head = step_index rb.size rb.head; buff = set rb.buff rb.head x }

abbrev pub skip_byte : Ringbuff → Ringbuff
skip_byte rb = record rb { tail = step_index rb.size rb.tail }

-- The list is what is left of the source, `buff[wlen..n)`.
write_from : Ringbuff → List ℕ → ℕ → ℕ × Ringbuff
write_from rb [] wlen = (wlen, rb)
write_from rb (x ∷ xs) wlen =
    let rest = write_from (put_byte rb x) xs (wlen + 1) in if is_full rb then (wlen, rb) else rest

pub ringbuff_write : Ringbuff → List ℕ → ℕ × Ringbuff
ringbuff_write rb src = write_from rb src 0

abbrev pub after_byte : ℕ → ℕ × List ℕ × Ringbuff → ℕ × List ℕ × Ringbuff
after_byte x (rlen, xs, rb) = (rlen, x ∷ xs, rb)

-- The rounds left are `n - rlen`; the list is what the loop stores through `buff`.
read_from : Ringbuff → ℕ → ℕ → ℕ × List ℕ × Ringbuff
read_from rb zero rlen = (rlen, [], rb)
read_from rb (suc n) rlen =
    let rest = after_byte (get_or rb.buff rb.tail 0) (read_from (skip_byte rb) n (rlen + 1)) in
    if rb.tail == rb.head then (rlen, [], rb) else rest

pub ringbuff_read : Ringbuff → ℕ → ℕ × List ℕ × Ringbuff
ringbuff_read rb n = read_from rb n 0

pub ringbuff_force_write : Ringbuff → List ℕ → Ringbuff
ringbuff_force_write rb [] = rb
ringbuff_force_write rb (x ∷ xs) = ringbuff_force_write (put_byte rb x) xs
