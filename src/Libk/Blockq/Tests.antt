-- ===== src/Libk/Blockq/Tests.antt =====
-- blockq.c on a queue of two-byte elements.
use pi_os.Common.{◌≡◌, refl, arith, [], ◌∷◌}
use pi_os.Libk.Ringbuff.{ringbuff_length}
use pi_os.Libk.Blockq.{Blockq, done, blockq_push, blockq_pop}
use pi_os.Libk.Blockq.Elements.{Holds, blockq_push-snoc, blockq_pop-cons}

abbrev one_of_two : Blockq
one_of_two = record {
  rbuff = record { head = 2; tail = 0; size = 5; buff = 7 ∷ 8 ∷ 0 ∷ 0 ∷ 0 ∷ [] };
  not_empty = 1;
  not_full = 1;
  size = 1;
  max_size = 2;
  base_size = 2;
  queue_lock = record { locked = 0; owner = 5 };
}

one_of_two-Holds : Holds one_of_two ((7 ∷ 8 ∷ []) ∷ [])
unfolding ringbuff_length
one_of_two-Holds = record {
  ring = omega arith;
  bytes = refl;
  elements = (refl, tt);
  ring_size = refl;
  size = refl;
  not_empty = refl;
  not_full = refl;
  small = omega arith;
  unlocked = refl;
}

blockq_push-snoc_example :
    (q' : Blockq) × (blockq_push 9 one_of_two (1 ∷ 2 ∷ []) ≡ done [] q')
    × Holds q' ((7 ∷ 8 ∷ []) ∷ (1 ∷ 2 ∷ []) ∷ [])
blockq_push-snoc_example =
    blockq_push-snoc 9 one_of_two ((7 ∷ 8 ∷ []) ∷ []) (1 ∷ 2 ∷ []) one_of_two-Holds refl
      (omega arith)

blockq_pop-cons_example :
    (q' : Blockq) × (blockq_pop 9 one_of_two ≡ done (7 ∷ 8 ∷ []) q') × Holds q' []
blockq_pop-cons_example = blockq_pop-cons 9 one_of_two (7 ∷ 8 ∷ []) [] one_of_two-Holds
