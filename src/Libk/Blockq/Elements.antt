-- ===== src/Libk/Blockq/Elements.antt =====
-- A blocking queue as the list of its elements.
use pi_os.Common.{
  ℕ, zero, suc, ◌+◌, ◌-◌, ◌*◌, ◌≤◌, ◌<◌, ◌≡◌, refl, sym, ap, ◌∙◌, arith, List, [], ◌∷◌, ◌++◌,
  append-nil, append_assoc, length, length-append, take, drop, take_all, take-append, leb, eq→==,
  ne→==, some, true,
}
use pi_os.Common.Word.{add16, sub16}
use pi_os.Libk.Ringbuff.{ringbuff_length, ringbuff_write, ringbuff_read}
use pi_os.Libk.Ringbuff.Inv.{IsValid, contents, length-contents}
use pi_os.Libk.Ringbuff.Refine.{ringbuff_write-append, ringbuff_read-take}
use pi_os.Libk.Semaphore.{semaphore_up, semaphore_down, takes}
use pi_os.Libk.Spinlock.{Spinlock, spinlock_lock, spinlock_unlock}
use pi_os.Libk.Blockq.{Blockq, done, blockq_pop, blockq_push}

abbrev pub concat : List (List ℕ) → List ℕ
concat [] = []
concat (x ∷ xs) = x ++ concat xs

abbrev pub AllLength : ℕ → List (List ℕ) → Type 0
AllLength n [] = Unit {0}
AllLength n (x ∷ xs) = (length x ≡ n) × AllLength n xs

concat-snoc : (xs : List (List ℕ)) (x : List ℕ) → concat (xs ++ (x ∷ [])) ≡ concat xs ++ x
concat-snoc [] x = append-nil x
concat-snoc (y ∷ xs) x = ap (λ t. y ++ t) (concat-snoc xs x) ∙ sym (append_assoc y (concat xs) x)

AllLength-snoc :
    (n : ℕ) (xs : List (List ℕ)) (x : List ℕ)
    → AllLength n xs
    → length x ≡ n
    → AllLength n (xs ++ (x ∷ []))
AllLength-snoc n [] x h e = (e, tt)
AllLength-snoc n (y ∷ xs) x (f, h) e = (f, AllLength-snoc n xs x h e)

suc-mul : (m b : ℕ) → suc m * b ≡ b + m * b
suc-mul m b = omega arith

length-concat : (n : ℕ) (xs : List (List ℕ)) → AllLength n xs → length (concat xs) ≡ length xs * n
length-concat n [] h = omega arith
length-concat n (x ∷ xs) (e, h) =
    omega (arith, length-append x (concat xs), e, length-concat n xs h, suc-mul (length xs) n)

drop-append : (xs ys : List ℕ) → drop (length xs) (xs ++ ys) ≡ ys
drop-append [] ys = refl
drop-append (x ∷ xs) ys = drop-append xs ys

-- A number that is at most another passes its test.
leb-of_le : (a b : ℕ) → a ≤ b → leb a b ≡ true
leb-of_le a b h = ground arith

-- There is room for one more.
room : (k max b : ℕ) → k < max → k * b + b ≤ max * b
room zero (suc m) b h = omega (arith, suc-mul m b)
room zero zero b h = absurd (omega arith)
room (suc k) zero b h = absurd (omega arith)
room (suc k) (suc m) b h = omega (arith, suc-mul k b, suc-mul m b, room k m b (omega arith))

-- The queue holds the elements `xs`, the oldest first, and its counts and its ring fit them; nobody
-- has the lock.
pub record Holds (q : Blockq) (xs : List (List ℕ)) : Type 0 where
  pub ring : IsValid q.rbuff
  pub bytes : contents q.rbuff ≡ concat xs
  pub elements : AllLength q.base_size xs
  pub ring_size : q.rbuff.size ≡ q.max_size * q.base_size + 1
  pub size : q.size ≡ length xs
  pub not_empty : q.not_empty ≡ length xs
  pub not_full : q.not_full + length xs ≡ q.max_size
  pub small : q.max_size < 0x8000
  pub unlocked : q.queue_lock.locked ≡ 0

semaphore_down-takes : (c : ℕ) → 0 < c → c < 0x8000 → semaphore_down c ≡ takes (c - 1)
unfolding semaphore_down
semaphore_down-takes c lo hi = ground arith

spinlock_lock-free :
    (pid : ℕ) (sl : Spinlock)
    → sl.locked ≡ 0
    → spinlock_lock pid sl ≡ some (record { locked = 1; owner = pid })
unfolding spinlock_lock
spinlock_lock-free pid sl h = ground (arith, h)

spinlock_unlock-owner :
    (pid : ℕ) → (spinlock_unlock pid (record { locked = 1; owner = pid })).1.locked ≡ 0
unfolding spinlock_unlock
spinlock_unlock-owner pid = ground arith

ringbuff_length-Holds :
    (q : Blockq) (xs : List (List ℕ))
    → Holds q xs
    → ringbuff_length q.rbuff ≡ length xs * q.base_size
ringbuff_length-Holds q xs h =
    sym (length-contents q.rbuff)
    ∙ ap (length {0}) h.bytes
    ∙ length-concat q.base_size xs h.elements

-- The queue behind a push and behind a pop.
abbrev pushed : ℕ → Blockq → List ℕ → Blockq
pushed pid q x = record q {
  rbuff = (ringbuff_write q.rbuff x).1;
  not_full = q.not_full - 1;
  size = add16 q.size 1;
  not_empty = semaphore_up q.not_empty;
  queue_lock = (spinlock_unlock pid (record { locked = 1; owner = pid })).1;
}

abbrev popped : ℕ → Blockq → Blockq
popped pid q = record q {
  rbuff = (ringbuff_read q.rbuff q.base_size).2;
  not_empty = q.not_empty - 1;
  size = sub16 q.size 1;
  not_full = semaphore_up q.not_full;
  queue_lock = (spinlock_unlock pid (record { locked = 1; owner = pid })).1;
}

-- A push of an element of the right size, to a queue that is not full, whose lock is free, and whose
-- counts and ring fit its elements, is done at once: no `ASSERT` of it fails, the lock is free again,
-- the counts and the ring stay in step, and the element is behind the others.
pub blockq_push-snoc :
    (pid : ℕ) (q : Blockq) (xs : List (List ℕ)) (x : List ℕ)
    → Holds q xs
    → length x ≡ q.base_size
    → length xs < q.max_size
    → (q' : Blockq) × (blockq_push pid q x ≡ done [] q') × Holds q' (xs ++ (x ∷ []))
unfolding blockq_push
blockq_push-snoc pid q xs x h e free =
    let (wlen, bytes, valid, same) = ringbuff_write-append x h.ring in
    let len = ringbuff_length-Holds q xs h in
    let fits : length x ≤ q.rbuff.size - 1 - ringbuff_length q.rbuff =
      omega (arith, room (length xs) q.max_size q.base_size free, len, h.ring_size, e) in
    let wb = eq→== (ringbuff_write q.rbuff x).0 q.base_size (omega (arith, wlen, fits, e)) in
    let grown : add16 q.size 1 ≡ length xs + 1 = omega (arith, h.size, free, h.small) in
    let count : length (xs ++ (x ∷ [])) ≡ length xs + 1 =
      omega (arith, length-append xs (x ∷ [])) in
    (
      pushed pid q x,
      rw
          (
            semaphore_down-takes q.not_full (omega (arith, h.not_full, free))
                (omega (arith, h.not_full, h.small)),
            spinlock_lock-free pid q.queue_lock h.unlocked,
            wb,
            leb-of_le (add16 q.size 1) q.max_size (omega (arith, grown, free)),
          )
          refl,
      record {
        ring = valid;
        bytes =
            bytes
            ∙ ap (λ t. contents q.rbuff ++ t) (take_all _ x fits)
            ∙ ap (λ t. t ++ x) h.bytes
            ∙ sym (concat-snoc xs x);
        elements = AllLength-snoc q.base_size xs x h.elements e;
        ring_size = same ∙ h.ring_size;
        size = grown ∙ sym count;
        not_empty = omega (arith, h.not_empty, count, free, h.small);
        not_full = omega (arith, h.not_full, count, free);
        small = h.small;
        unlocked = spinlock_unlock-owner pid;
      },
    )

-- A pop from a queue that is not empty, whose lock is free, and whose counts and ring fit its elements,
-- is done at once: no `ASSERT` of it fails, it gives the oldest element, whole, and leaves the others
-- in a queue with a free lock and with counts and ring that fit them.
pub blockq_pop-cons :
    (pid : ℕ) (q : Blockq) (x : List ℕ) (xs : List (List ℕ))
    → Holds q (x ∷ xs)
    → (q' : Blockq) × (blockq_pop pid q ≡ done x q') × Holds q' xs
unfolding blockq_pop
blockq_pop-cons pid q x xs h =
    let (rlen, out, bytes, valid, same) = ringbuff_read-take q.base_size h.ring in
    let len = ringbuff_length-Holds q (x ∷ xs) h in
    let (e, rest) = h.elements in
    let n : (ringbuff_read q.rbuff q.base_size).0 ≡ q.base_size =
      omega (arith, rlen, len, suc-mul (length xs) q.base_size) in
    let rb = eq→== (ringbuff_read q.rbuff q.base_size).0 q.base_size n in
    let front : (ringbuff_read q.rbuff q.base_size).1 ≡ x =
      out
      ∙ ap (take q.base_size) h.bytes
      ∙ ap (λ k. take k (x ++ concat xs)) (sym e)
      ∙ take-append x (concat xs) in
    (
      popped pid q,
      rw
          (
            semaphore_down-takes q.not_empty (omega (arith, h.not_empty))
                (omega (arith, h.not_empty, h.not_full, h.small)),
            spinlock_lock-free pid q.queue_lock h.unlocked,
            ne→== q.size 0 (omega (arith, h.size)),
            rb,
            front,
          )
          refl,
      record {
        ring = valid;
        bytes =
            bytes
            ∙ ap (drop q.base_size) h.bytes
            ∙ ap (λ k. drop k (x ++ concat xs)) (sym e)
            ∙ drop-append x (concat xs);
        elements = rest;
        ring_size = same ∙ h.ring_size;
        size = omega (arith, h.size, h.not_full, h.small);
        not_empty = omega (arith, h.not_empty);
        not_full = omega (arith, h.not_full, h.small);
        small = h.small;
        unlocked = spinlock_unlock-owner pid;
      },
    )
