-- ===== src/Libk/Ringbuff/Refine.antt =====
-- ringbuff.c against a byte queue of at most `size` bytes, the number that `ringbuff_init` is given.
use pi_os.Common.{
  ℕ, zero, suc, ◌+◌, ◌-◌, ◌<◌, min, ◌≡◌, refl, ap, ◌∙◌, arith, List, [], ◌∷◌, ◌++◌, append-nil,
  append_assoc, length, take, drop, length-take, inl, inr, Bool-cases, ◌==◌, ==→eq, ==→ne,
  if◌then◌else◌,
}
use pi_os.Libk.Ringbuff.{
  Ringbuff, ringbuff_init, ringbuff_length, is_full, put_byte, write_from, ringbuff_write,
  read_from, ringbuff_read, ringbuff_force_write,
}
use pi_os.Libk.Ringbuff.Inv.{
  IsValid, contents, length-contents, is_full-true, is_full-false, put_byte-IsValid,
  length-put_byte, length-put_byte_full, contents-put_byte, skip_byte-IsValid, length-empty,
  contents-skip_byte,
}

-- The free bytes.
abbrev pub room : Ringbuff → ℕ
room rb = rb.size - 1 - ringbuff_length rb

-- What a loop of `ringbuff_write` started at `rb` with `wlen` bytes written has done at its end.
record Wrote (rb : Ringbuff) (src : List ℕ) (wlen : ℕ) (out : ℕ × Ringbuff) : Type 0 where
  valid : IsValid out.1
  same_size : out.1.size ≡ rb.size
  count : out.0 ≡ wlen + min (length src) (room rb)
  bytes : contents out.1 ≡ contents rb ++ take (room rb) src

take-zero : (n : ℕ) (xs : List ℕ) → n ≡ 0 → take n xs ≡ []
take-zero zero xs h = refl
take-zero (suc n) xs h = absurd (omega arith)

take-suc : (n m x : ℕ) (xs : List ℕ) → n ≡ suc m → take n (x ∷ xs) ≡ x ∷ take m xs
take-suc zero m x xs h = absurd (omega arith)
take-suc (suc n) m x xs h = ap (λ k. x ∷ take k xs) (omega arith)

take-nil : (n : ℕ) → take {A = ℕ} n [] ≡ []
take-nil zero = refl
take-nil (suc n) = refl

write_from-Wrote :
    (src : List ℕ) {rb : Ringbuff} (wlen : ℕ)
    → IsValid rb
    → Wrote rb src wlen (write_from rb src wlen)
unfolding write_from
write_from-Wrote [] {rb} wlen v = record {
  valid = v;
  same_size = refl;
  count = omega arith;
  bytes = ground (arith, take-nil (room rb), append-nil (contents rb));
}
write_from-Wrote (x ∷ xs) {rb} wlen v = elim (Bool-cases (is_full rb)) [
  | inl full ↦ rw full record {
    valid = v;
    same_size = refl;
    count = omega (arith, is_full-true v full);
    bytes =
        ground (arith, take-zero (room rb) (x ∷ xs), is_full-true v full, append-nil (contents rb));
  }
  | inr free ↦ rw free (
      ground (
        arith,
        write_from-Wrote xs (wlen + 1) (put_byte-IsValid v x),
        is_full-false v free,
        length-put_byte v x,
        contents-put_byte v x,
        take-suc (room rb) (room (put_byte rb x)) x xs,
        append_assoc (contents rb) (x ∷ []) (take (room (put_byte rb x)) xs),
      ))
]

-- On a valid buffer `ringbuff_write` appends the longest prefix of the source that fits, in order,
-- returns its length, and keeps the invariant and the size.
pub ringbuff_write-append :
    {rb : Ringbuff} (src : List ℕ)
    → IsValid rb
    → let (wlen, rb') = ringbuff_write rb src in
      (wlen ≡ min (length src) (rb.size - 1 - ringbuff_length rb))
      × (contents rb' ≡ contents rb ++ take (rb.size - 1 - ringbuff_length rb) src)
      × IsValid rb'
      × (rb'.size ≡ rb.size)
unfolding ringbuff_write
ringbuff_write-append src v =
    let w = write_from-Wrote src 0 v in (omega (arith, w.count), w.bytes, w.valid, w.same_size)

record Read (rb : Ringbuff) (n rlen : ℕ) (out : ℕ × List ℕ × Ringbuff) : Type 0 where
  valid : IsValid out.2
  same_size : out.2.size ≡ rb.size
  count : out.0 ≡ rlen + length out.1
  bytes : out.1 ≡ take n (contents rb)
  rest : contents out.2 ≡ drop n (contents rb)

drop-nil : (n : ℕ) → drop {A = ℕ} n [] ≡ []
drop-nil zero = refl
drop-nil (suc n) = refl

empty_contents : (rb : Ringbuff) → ringbuff_length rb ≡ 0 → contents rb ≡ []
empty_contents rb h = nil_of_length (contents rb) (length-contents rb ∙ h)
  where
    nil_of_length : (xs : List ℕ) → length xs ≡ 0 → xs ≡ []
    nil_of_length [] e = refl
    nil_of_length (x ∷ xs) e = absurd (omega arith)

read_from-Read :
    (n : ℕ) {rb : Ringbuff} (rlen : ℕ) → IsValid rb → Read rb n rlen (read_from rb n rlen)
unfolding read_from
read_from-Read zero rlen v = record {
  valid = v;
  same_size = refl;
  count = omega arith;
  bytes = refl;
  rest = refl;
}
read_from-Read (suc n) {rb} rlen v = elim (Bool-cases (rb.tail == rb.head)) [
  | inl e ↦ rw e (ground (arith, empty_contents rb, length-empty v (==→eq _ _ e)))
  | inr ne ↦ rw ne (
      ground (
        arith,
        read_from-Read n (rlen + 1) (skip_byte-IsValid v),
        contents-skip_byte v (==→ne _ _ ne),
      ))
]

-- On a valid buffer `ringbuff_read` hands out the oldest `n` bytes, or all that there are, in order,
-- returns their number, leaves the other bytes, and keeps the invariant and the size.
pub ringbuff_read-take :
    {rb : Ringbuff} (n : ℕ)
    → IsValid rb
    → let (rlen, out, rb') = ringbuff_read rb n in
      (rlen ≡ min n (ringbuff_length rb))
      × (out ≡ take n (contents rb))
      × (contents rb' ≡ drop n (contents rb))
      × IsValid rb'
      × (rb'.size ≡ rb.size)
unfolding ringbuff_read
ringbuff_read-take {rb} n v =
    let r = read_from-Read n 0 v in
    (
      omega (
        arith,
        r.count,
        ap (length {0}) r.bytes,
        length-take n (contents rb),
        length-contents rb,
      ),
      r.bytes,
      r.rest,
      r.valid,
      r.same_size,
    )

-- The abstract forced write: a byte that finds the queue full empties it.
abbrev pub force_push : ℕ → List ℕ → ℕ → List ℕ
force_push cap q x = if length q == cap then [] else q ++ (x ∷ [])

abbrev pub force_pushes : ℕ → List ℕ → List ℕ → List ℕ
force_pushes cap q [] = q
force_pushes cap q (x ∷ xs) = force_pushes cap (force_push cap q x) xs

force_step :
    {rb : Ringbuff} (x : ℕ)
    → IsValid rb
    → contents (put_byte rb x) ≡ force_push (rb.size - 1) (contents rb) x
force_step {rb} x v = elim (Bool-cases (is_full rb)) [
  | inl full ↦ ground (
    arith,
    length-contents rb,
    is_full-true v full,
    empty_contents (put_byte rb x),
    length-put_byte_full v x,
  )
  | inr free ↦ ground (arith, length-contents rb, is_full-false v free, contents-put_byte v x)
]

-- `ringbuff_force_write` pushes every byte; one that finds the buffer full resets it, so what is
-- left is what was written since the last reset. The invariant and the size are kept.
pub ringbuff_force_write-force_pushes :
    (src : List ℕ) {rb : Ringbuff}
    → IsValid rb
    → let rb' = ringbuff_force_write rb src in
      (contents rb' ≡ force_pushes (rb.size - 1) (contents rb) src)
      × IsValid rb'
      × (rb'.size ≡ rb.size)
unfolding ringbuff_force_write
ringbuff_force_write-force_pushes [] v = (refl, v, refl)
ringbuff_force_write-force_pushes (x ∷ xs) {rb} v =
    let (c, v', s) = ringbuff_force_write-force_pushes xs (put_byte-IsValid v x) in
    (rw (← force_step x v) c, v', s)

-- A fresh buffer is valid and empty, and has room for exactly the bytes asked for.
pub ringbuff_init-IsValid :
    (storage : List ℕ) (size : ℕ)
    → size < 0xFFFF
    → size < length storage
    → let rb = ringbuff_init storage size in
      IsValid rb × (contents rb ≡ []) × (rb.size - 1 - ringbuff_length rb ≡ size)
unfolding ringbuff_init ringbuff_length
ringbuff_init-IsValid storage size h s = (ground arith, ground arith, ground arith)
