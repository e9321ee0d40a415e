-- ===== src/Libk/Kmalloc/Refine.antt =====
-- kmalloc.c computes first fit on the layout of the heap.
use pi_os.Common.{
  ℕ, zero, suc, ◌+◌, ◌-◌, ◌*◌, ◌/◌, ◌≤◌, ◌<◌, ◌≡◌, refl, sym, ap, ◌∙◌, arith, Option, none, some,
  List, [], ◌∷◌, ◌++◌, append_assoc, leb, replicate, length, length-append, length-replicate, drop,
  get_or, set, Bool-cases, inl, inr, append-nil, leb→le, ◌%◌,
}
use pi_os.Libk.Kmalloc.{
  heap_arr_size, chunk_size, size_in_chunks, find_chunks, allocate, kmalloc, chunk_address,
  count_free, mem_free_size,
}
use pi_os.Libk.Kmalloc.Layout.{
  Segment, gap, block, Layout, render, gaps, leading_gaps, shift, first_fit, free_chunks,
}

-- What `kmalloc` does to a layout: the address and the new heap.
abbrev pub allocated : Option (ℕ × Layout) → Option (ℕ × List ℕ)
allocated none = none
allocated (some (i, s)) = some (chunk_address i, render s)

abbrev place : ℕ → Option (ℕ × Layout) → Option ℕ
place n none = none
place n (some (i, s)) = some (n + i)

pub get_or-append :
    (pre : List ℕ) (x : ℕ) (xs : List ℕ) (i : ℕ) → i ≡ length pre → get_or (pre ++ (x ∷ xs)) i 0 ≡ x
get_or-append [] x xs zero e = refl
get_or-append [] x xs (suc i) e = absurd (omega arith)
get_or-append (y ∷ pre) x xs zero e = absurd (omega arith)
get_or-append (y ∷ pre) x xs (suc i) e = get_or-append pre x xs i (omega arith)

pub leading_gaps-gaps : (n : ℕ) (s : Layout) → leading_gaps (gaps n ++ s) ≡ n + leading_gaps s
leading_gaps-gaps zero s = omega arith
leading_gaps-gaps (suc n) s = omega (arith, leading_gaps-gaps n s)

gaps_snoc : (n : ℕ) (s : Layout) → gaps n ++ (gap ∷ s) ≡ gaps (suc n) ++ s
gaps_snoc zero s = refl
gaps_snoc (suc n) s = ap (λ t. gap ∷ t) (gaps_snoc n s)

place-shift :
    (n m : ℕ) (g : Segment) (o : Option (ℕ × Layout)) → place n (shift m g o) ≡ place (n + m) o
place-shift n m g none = refl
place-shift n m g (some (i, s)) = ap some (omega arith)

-- A run of gaps that is too short is passed over.
first_fit-gaps :
    (need n j : ℕ) (k : ℕ) (s : Layout)
    → n ≤ need
    → place j (first_fit need (gaps n ++ (block k ∷ s))) ≡ place (j + n + suc k) (first_fit need s)
unfolding first_fit
first_fit-gaps need zero j k s h =
    place-shift j (suc k) (block k) (first_fit need s)
    ∙ ap (λ t. place t (first_fit need s)) (omega arith)
first_fit-gaps need (suc n) j k s h = ground (
  arith,
  leading_gaps-gaps n (block k ∷ s),
  place-shift j 1 gap (first_fit need (gaps n ++ (block k ∷ s))),
  first_fit-gaps need n (j + 1) k s,
  ap (λ t. place t (first_fit need s)) (e n),
)
  where
    e : (n : ℕ) → j + 1 + n + suc k ≡ j + suc n + suc k
    e n = omega arith

first_fit-gaps_only : (need n : ℕ) → n ≤ need → first_fit need (gaps n) ≡ none
unfolding first_fit
first_fit-gaps_only need zero h = refl
first_fit-gaps_only need (suc n) h =
    ground (arith, leading_gaps-gaps n [], append-nil (gaps n), first_fit-gaps_only need n)

-- A run of gaps that is long enough is taken.
first_fit-gaps_enough :
    (need : ℕ) (s : Layout)
    → first_fit need (gaps (suc need) ++ s) ≡ some (0, block need ∷ drop need (gaps need ++ s))
unfolding first_fit
first_fit-gaps_enough need s = ground (arith, leading_gaps-gaps need s)

length-pre_gap : (pre : List ℕ) (x : ℕ) → length (pre ++ (x ∷ [])) ≡ suc (length pre)
length-pre_gap pre x = omega (arith, length-append pre (x ∷ []))

-- The loop of `kmalloc`, started behind `pre` with `free` free chunks just before it.
find_chunks-first_fit :
    (fuel : ℕ) (s : Layout) (pre mem : List ℕ) (need free cur : ℕ)
    → mem ≡ pre ++ render s
    → cur ≡ length pre
    → length mem ≡ heap_arr_size
    → length (render s) < fuel
    → free ≤ need
    → free ≤ cur
    → find_chunks fuel mem (suc need) free cur
      ≡ place (cur - free) (first_fit need (gaps free ++ s))
unfolding find_chunks
find_chunks-first_fit zero s pre mem need free cur em ec el hf hn hc = absurd (omega arith)
find_chunks-first_fit (suc fuel) [] pre mem need free cur em ec el hf hn hc = ground (
  arith,
  ap (length {0}) em,
  append-nil pre,
  append-nil (gaps free),
  first_fit-gaps_only need free,
)
find_chunks-first_fit (suc fuel) (gap ∷ s) pre mem need free cur em ec el hf hn hc =
    let inside = ap (length {0}) em ∙ length-append pre (render (gap ∷ s)) in
    let here : get_or mem cur 0 ≡ 0 = rw em (get_or-append pre 0 (render s) cur ec) in
    let step =
      find_chunks-first_fit fuel s (pre ++ (0 ∷ [])) mem need (suc free) (suc cur)
        (em ∙ sym (append_assoc pre (0 ∷ []) (render s))) in
    let free' : free + 1 ≡ suc free = omega arith in
    let cur' : cur + 1 ≡ suc cur = omega arith in
    rw (free', cur', gaps_snoc free s, here)
      (ground (arith, inside, step, first_fit-gaps_enough need s, length-pre_gap pre 0))
find_chunks-first_fit (suc fuel) (block k ∷ s) pre mem need free cur em ec el hf hn hc =
    let inside = ap (length {0}) em ∙ length-append pre (render (block k ∷ s)) in
    let here : get_or mem cur 0 ≡ suc k =
      rw em (get_or-append pre (suc k) (replicate k 0 ++ render s) cur ec) in
    let step =
      find_chunks-first_fit fuel s (pre ++ (suc k ∷ replicate k 0)) mem need 0 (cur + suc k)
        (em ∙ sym (append_assoc pre (suc k ∷ replicate k 0) (render s))) in
    rw here (
      ground (
        arith,
        inside,
        step,
        first_fit-gaps need free (cur - free) k s,
        length-replicate {A = ℕ} k 0,
        length-append pre (suc k ∷ replicate k 0),
        length-append (replicate k 0) (render s),
      ))

pub leading_gaps-le : (s : Layout) → leading_gaps s ≤ length (render s)
leading_gaps-le [] = omega arith
leading_gaps-le (gap ∷ s) = omega (arith, leading_gaps-le s)
leading_gaps-le (block k ∷ s) = omega arith

-- Free chunks at the front of a layout stand as zeros at the front of the array.
pub render-drop :
    (n : ℕ) (s : Layout) → n ≤ leading_gaps s → render s ≡ replicate n 0 ++ render (drop n s)
render-drop zero s h = refl
render-drop (suc n) [] h = absurd (omega arith)
render-drop (suc n) (gap ∷ s) h = ap (λ t. 0 ∷ t) (render-drop n s (omega arith))
render-drop (suc n) (block k ∷ s) h = absurd (omega arith)

pub set-append :
    (pre xs : List ℕ) (i n : ℕ) → set (pre ++ xs) (length pre + i) n ≡ pre ++ set xs i n
set-append [] xs i n = ap (λ t. set xs t n) (omega arith)
set-append (y ∷ pre) xs i n =
    let e : suc (length pre) + i ≡ suc (length pre + i) = omega arith in
    rw e (ap (λ t. y ∷ t) (set-append pre xs i n))

-- The one write of `kmalloc` turns the free chunks into the block.
abbrev Placed : ℕ → List ℕ → Option (ℕ × Layout) → Type 0
Placed need mem none = Unit {0}
Placed need mem (some (i, s)) = set mem i (suc need) ≡ render s

Placed-gap :
    (need : ℕ) (mem : List ℕ) (o : Option (ℕ × Layout))
    → Placed need mem o
    → Placed need (0 ∷ mem) (shift 1 gap o)
Placed-gap need mem none h = tt
Placed-gap need mem (some (i, s)) h =
    let e : 1 + i ≡ suc i = omega arith in rw e (ap (λ t. 0 ∷ t) h)

Placed-block :
    (need k : ℕ) (mem : List ℕ) (o : Option (ℕ × Layout))
    → Placed need mem o
    → Placed need (suc k ∷ (replicate k 0 ++ mem)) (shift (suc k) (block k) o)
Placed-block need k mem none h = tt
Placed-block need k mem (some (i, s)) h =
    let e : suc k + i ≡ suc (k + i) = omega arith in
    let at : length (replicate {A = ℕ} k 0) + i ≡ k + i =
      ap (λ n. n + i) (length-replicate {A = ℕ} k 0) in
    rw (e, ← at)
      (ap (λ t. suc k ∷ t)
        (set-append (replicate k 0) mem i (suc need) ∙ ap (λ t. replicate k 0 ++ t) h))

first_fit-Placed : (need : ℕ) (s : Layout) → Placed need (render s) (first_fit need s)
unfolding first_fit
first_fit-Placed need [] = tt
first_fit-Placed need (gap ∷ s) = elim (Bool-cases (leb need (leading_gaps s))) [
  | inl e ↦ rw e (ap (λ t. suc need ∷ t) (render-drop need s (leb→le _ _ e)))
  | inr e ↦ rw e (Placed-gap need (render s) (first_fit need s) (first_fit-Placed need s))
]
first_fit-Placed need (block k ∷ s) =
    Placed-block need k (render s) (first_fit need s) (first_fit-Placed need s)

allocate-allocated :
    (need : ℕ) (mem : List ℕ) (o : Option (ℕ × Layout))
    → Placed need mem o
    → allocate mem (suc need) (place 0 o) ≡ allocated o
unfolding allocate
allocate-allocated need mem none h = refl
allocate-allocated need mem (some (i, s)) h = let e : 0 + i ≡ i = omega arith in rw (e, h)

-- On a heap that a layout describes `kmalloc` returns the first free run that holds the request
-- and its last byte, marks it in the array, and panics just when there is no such run. A request
-- of more than 65527 bytes is not covered.
pub kmalloc-first_fit :
    (s : Layout) (size : ℕ)
    → length (render s) ≡ heap_arr_size
    → size < 65528
    → kmalloc (render s) size ≡ allocated (first_fit (size / 8) s)
unfolding kmalloc
kmalloc-first_fit s size hl hs =
    let need : size_in_chunks size ≡ suc (size / 8) = omega arith in
    let found =
      find_chunks-first_fit (heap_arr_size + 1) s [] (render s) (size / 8) 0 0 refl refl hl
        (omega arith) (omega arith) (omega arith) in
    rw (need, found)
      (allocate-allocated (size / 8) (render s) (first_fit (size / 8) s)
        (first_fit-Placed (size / 8) s))

-- The loop of `mem_free_size`.
count_free-free_chunks :
    (fuel : ℕ) (s : Layout) (pre mem : List ℕ) (free cur : ℕ)
    → mem ≡ pre ++ render s
    → cur ≡ length pre
    → length mem ≡ heap_arr_size
    → length (render s) < fuel
    → free ≤ cur * 8
    → count_free fuel mem free cur ≡ free + free_chunks s * 8
unfolding count_free free_chunks
count_free-free_chunks zero s pre mem free cur em ec el hf hb = absurd (omega arith)
count_free-free_chunks (suc fuel) [] pre mem free cur em ec el hf hb =
    ground (arith, ap (length {0}) em, append-nil pre)
count_free-free_chunks (suc fuel) (gap ∷ s) pre mem free cur em ec el hf hb =
    let inside = ap (length {0}) em ∙ length-append pre (render (gap ∷ s)) in
    let here : get_or mem cur 0 ≡ 0 = rw em (get_or-append pre 0 (render s) cur ec) in
    let step =
      count_free-free_chunks fuel s (pre ++ (0 ∷ [])) mem (free + 8) (suc cur)
        (em ∙ sym (append_assoc pre (0 ∷ []) (render s))) in
    let cur' : cur + 1 ≡ suc cur = omega arith in
    let free' : (free + 8) % 0x1_0000 ≡ free + 8 = omega arith in
    rw (cur', here, free') (ground (arith, inside, step, length-pre_gap pre 0))
count_free-free_chunks (suc fuel) (block k ∷ s) pre mem free cur em ec el hf hb =
    let inside = ap (length {0}) em ∙ length-append pre (render (block k ∷ s)) in
    let here : get_or mem cur 0 ≡ suc k =
      rw em (get_or-append pre (suc k) (replicate k 0 ++ render s) cur ec) in
    let step =
      count_free-free_chunks fuel s (pre ++ (suc k ∷ replicate k 0)) mem free (cur + suc k)
        (em ∙ sym (append_assoc pre (suc k ∷ replicate k 0) (render s))) in
    rw here (
      ground (
        arith,
        inside,
        step,
        length-replicate {A = ℕ} k 0,
        length-append pre (suc k ∷ replicate k 0),
        length-append (replicate k 0) (render s),
      ))

free_chunks-le : (s : Layout) → free_chunks s ≤ length (render s)
unfolding free_chunks
free_chunks-le [] = omega arith
free_chunks-le (gap ∷ s) = omega (arith, free_chunks-le s)
free_chunks-le (block k ∷ s) =
    omega (arith, free_chunks-le s, length-append (replicate k 0) (render s))

-- `mem_free_size` returns twice the number of bytes in the free chunks.
pub mem_free_size_double :
    (s : Layout)
    → length (render s) ≡ heap_arr_size
    → mem_free_size (render s) ≡ 2 * (free_chunks s * chunk_size)
unfolding mem_free_size
mem_free_size_double s hl =
    let counted =
      count_free-free_chunks (heap_arr_size + 1) s [] (render s) 0 0 refl refl hl (omega arith)
        (omega arith) in
    ap (λ t. (t * 2) % 0x1_0000) counted ∙ double (free_chunks s) (free_chunks-le s) hl
  where
    double :
        (n : ℕ)
        → n ≤ length (render s)
        → length (render s) ≡ heap_arr_size
        → ((0 + n * 8) * 2) % 0x1_0000 ≡ 2 * (n * 8)
    double n h e = omega arith
