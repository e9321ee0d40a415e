-- ===== src/Libk/Ringbuff/Tests.antt =====
-- ringbuff.c run on small buffers, and its theorems at such inputs.
use pi_os.Common.{◌-◌, ◌≡◌, refl, arith, [], ◌∷◌}
use pi_os.Libk.Ringbuff.{
  Ringbuff, ringbuff_init, ringbuff_length, write_from, ringbuff_write, read_from, ringbuff_read,
  ringbuff_force_write,
}
use pi_os.Libk.Ringbuff.Inv.{IsValid, contents}
use pi_os.Libk.Ringbuff.Refine.{ringbuff_write-append, ringbuff_read-take, ringbuff_init-IsValid}

-- Four bytes of room, with 8 and 9 round the end of the storage.
abbrev wrapped : Ringbuff
wrapped = record { head = 1; tail = 4; size = 5; buff = 9 ∷ 0 ∷ 0 ∷ 0 ∷ 8 ∷ [] }

wrapped-IsValid : IsValid wrapped
wrapped-IsValid = omega arith

contents-wrapped : contents wrapped ≡ 8 ∷ 9 ∷ []
unfolding ringbuff_length
contents-wrapped = refl

write_stops_when_full : (ringbuff_write wrapped (1 ∷ 2 ∷ 3 ∷ [])).0 ≡ 2
unfolding ringbuff_write write_from
write_stops_when_full = refl

read_all : (ringbuff_read wrapped 7).1 ≡ 8 ∷ 9 ∷ []
unfolding ringbuff_read read_from
read_all = refl

force_resets : contents (ringbuff_force_write wrapped (1 ∷ 2 ∷ 3 ∷ 4 ∷ [])) ≡ 4 ∷ []
unfolding ringbuff_force_write ringbuff_length
force_resets = refl

ringbuff_write-append_example :
    let (wlen, rb) = ringbuff_write wrapped (1 ∷ 2 ∷ 3 ∷ []) in
    (wlen ≡ 2) × (contents rb ≡ 8 ∷ 9 ∷ 1 ∷ 2 ∷ []) × IsValid rb × (rb.size ≡ 5)
unfolding ringbuff_length
ringbuff_write-append_example = ringbuff_write-append (1 ∷ 2 ∷ 3 ∷ []) wrapped-IsValid

ringbuff_read-take_example :
    let (rlen, out, rb) = ringbuff_read wrapped 1 in
    (rlen ≡ 1) × (out ≡ 8 ∷ []) × (contents rb ≡ 9 ∷ []) × IsValid rb × (rb.size ≡ 5)
unfolding ringbuff_length
ringbuff_read-take_example = ringbuff_read-take 1 wrapped-IsValid

ringbuff_init-IsValid_example :
    let rb = ringbuff_init (7 ∷ 7 ∷ 7 ∷ 7 ∷ []) 3 in
    IsValid rb × (contents rb ≡ []) × (rb.size - 1 - ringbuff_length rb ≡ 3)
ringbuff_init-IsValid_example =
    ringbuff_init-IsValid (7 ∷ 7 ∷ 7 ∷ 7 ∷ []) 3 (omega arith) (omega arith)
