-- ===== src/Libk/Kmalloc/Blocks.antt =====
-- What kmalloc.c promises of the blocks: they do not overlap, they lie in the heap, and `kfree`
-- gives back what `kmalloc` took.
use pi_os.Common.{
  ℕ, zero, suc, ◌+◌, ◌-◌, ◌/◌, ◌≤◌, ◌<◌, ◌≡◌, refl, sym, ap, ◌∙◌, arith, Option, none, some, List,
  [], ◌∷◌, ◌++◌, leb, ltb, if◌then◌else◌, replicate, length, length-append, length-replicate, drop,
  set, Bool, true, false, ◌&&◌, ◌||◌, Bool-cases, inl, inr, leb→le, subst, ◌⊎◌,
}
use pi_os.Libk.Kmalloc.{
  heap_arr_size, kmalloc, chunk_address, kfree, kernel_heap_start, kernel_heap_end,
}
use pi_os.Libk.Kmalloc.Layout.{gap, block, Layout, render, leading_gaps, shift, first_fit}
use pi_os.Libk.Kmalloc.Refine.{
  allocated, kmalloc-first_fit, set-append, render-drop, leading_gaps-le,
}

-- Whether chunk `j` belongs to an allocated block.
abbrev pub covered : Layout → ℕ → Bool
covered [] j = false
covered (gap ∷ s) zero = false
covered (gap ∷ s) (suc j) = covered s j
covered (block k ∷ s) j = if leb j k then true else covered s (j - suc k)

-- What first fit does to the chunks.
abbrev pub Fits : ℕ → Layout → Option (ℕ × Layout) → Type 0
Fits need s none = Unit {0}
Fits need s (some (i, s')) =
    (i + suc need ≤ length (render s))
    × (length (render s') ≡ length (render s))
    × (set (render s') i 0 ≡ render s)
    × ((j : ℕ) → i ≤ j → j ≤ i + need → covered s j ≡ false)
    × ((j : ℕ) → covered s' j ≡ ((leb i j && leb j (i + need)) || covered s j))

Fits-gap :
    (need : ℕ) (s : Layout) (o : Option (ℕ × Layout))
    → Fits need s o
    → Fits need (gap ∷ s) (shift 1 gap o)
Fits-gap need s none h = tt
Fits-gap need s (some (i, s')) (a, b, c, d, e) =
    let i' : 1 + i ≡ suc i = omega arith in
    (omega arith, omega arith, rw i' (ap (λ t. 0 ∷ t) c), was, now)
  where
    was : (j : ℕ) → 1 + i ≤ j → j ≤ 1 + i + need → covered (gap ∷ s) j ≡ false
    was zero h k = refl
    was (suc j) h k = d j (omega arith) (omega arith)

    now :
        (j : ℕ)
        → covered (gap ∷ s') j ≡ ((leb (1 + i) j && leb j (1 + i + need)) || covered (gap ∷ s) j)
    now zero = ground arith
    now (suc j) = ground (arith, e j)

Fits-block :
    (need k : ℕ) (s : Layout) (o : Option (ℕ × Layout))
    → Fits need s o
    → Fits need (block k ∷ s) (shift (suc k) (block k) o)
Fits-block need k s none h = tt
Fits-block need k s (some (i, s')) (a, b, c, d, e) =
    (omega (arith, l s, length-replicate {A = ℕ} k 0), omega (arith, l s, l s'), back, was, now)
  where
    l :
        (t : Layout)
        → length (replicate k 0 ++ render t) ≡ length (replicate {A = ℕ} k 0) + length (render t)
    l t = length-append (replicate k 0) (render t)

    back : set (render (block k ∷ s')) (suc k + i) 0 ≡ render (block k ∷ s)
    back =
        let i' : suc k + i ≡ suc (k + i) = omega arith in
        let at : length (replicate {A = ℕ} k 0) + i ≡ k + i =
          ap (λ n. n + i) (length-replicate {A = ℕ} k 0) in
        rw (i', ← at)
          (ap (λ t. suc k ∷ t)
            (set-append (replicate k 0) (render s') i 0 ∙ ap (λ t. replicate k 0 ++ t) c))

    was : (j : ℕ) → suc k + i ≤ j → j ≤ suc k + i + need → covered (block k ∷ s) j ≡ false
    was j h t = ground (arith, d (j - suc k))

    now :
        (j : ℕ)
        → covered (block k ∷ s') j
          ≡ ((leb (suc k + i) j && leb j (suc k + i + need)) || covered (block k ∷ s) j)
    now j = ground (arith, e (j - suc k))

covered-gaps :
    (need : ℕ) (s : Layout) (j : ℕ)
    → need ≤ leading_gaps s
    → covered s j ≡ (if leb (suc j) need then false else covered (drop need s) (j - need))
covered-gaps zero s j h = let e : j - 0 ≡ j = omega arith in ground (arith, ap (covered s) e)
covered-gaps (suc need) [] j h = absurd (omega arith)
covered-gaps (suc need) (gap ∷ s) zero h = ground arith
covered-gaps (suc need) (gap ∷ s) (suc j) h = ground (arith, covered-gaps need s j)
covered-gaps (suc need) (block k ∷ s) j h = absurd (omega arith)

first_fit-Fits : (need : ℕ) (s : Layout) → Fits need s (first_fit need s)
unfolding first_fit
first_fit-Fits need [] = tt
first_fit-Fits need (gap ∷ s) = elim (Bool-cases (leb need (leading_gaps s))) [
  | inl e ↦ rw e (here (leb→le _ _ e))
  | inr e ↦ rw e (Fits-gap need s (first_fit need s) (first_fit-Fits need s))
]
  where
    here : need ≤ leading_gaps s → Fits need (gap ∷ s) (some (0, block need ∷ drop need s))
    here h = (
      omega (arith, leading_gaps-le s),
      omega (arith, ap (length {0}) (render-drop need s h)),
      ap (λ t. 0 ∷ t) (sym (render-drop need s h)),
      was,
      now,
    )
      where
        was : (j : ℕ) → 0 ≤ j → j ≤ 0 + need → covered (gap ∷ s) j ≡ false
        was zero a b = refl
        was (suc j) a b = ground (arith, covered-gaps need s j h)

        now :
            (j : ℕ)
            → covered (block need ∷ drop need s) j
              ≡ ((leb 0 j && leb j (0 + need)) || covered (gap ∷ s) j)
        now zero = ground arith
        now (suc j) = ground (arith, covered-gaps need s j h)
first_fit-Fits need (block k ∷ s) = Fits-block need k s (first_fit need s) (first_fit-Fits need s)

-- The facts of a successful first fit.
Fits-some :
    (need : ℕ) (s : Layout) {i : ℕ} {s' : Layout}
    → first_fit need s ≡ some (i, s')
    → Fits need s (some (i, s'))
Fits-some need s e = subst (Fits need s) e (first_fit-Fits need s)

allocated-some :
    (o : Option (ℕ × Layout)) {p : ℕ} {m : List ℕ}
    → allocated o ≡ some (p, m)
    → (i : ℕ) × (s : Layout) × (o ≡ some (i, s)) × (chunk_address i ≡ p) × (render s ≡ m)
allocated-some none h = cc
allocated-some (some (i, s)) h = (i, s, refl, ap (fst_or 0) h, ap snd_or h)
  where
    fst_or : ℕ → Option (ℕ × List ℕ) → ℕ
    fst_or d none = d
    fst_or d (some (a, b)) = a

    snd_or : Option (ℕ × List ℕ) → List ℕ
    snd_or none = []
    snd_or (some (a, b)) = b

module _ (s : Layout) (size : ℕ) (hl : length (render s) ≡ heap_arr_size) (hs : size < 65528) where
  -- A pointer that `kmalloc` returns is the start of a block in the heap that holds the request
  -- and one more byte. The chunks of the block were free, and just they become covered.
  pub kmalloc_disjoint :
      (p : ℕ) (m : List ℕ)
      → kmalloc (render s) size ≡ some (p, m)
      → (i : ℕ) × (s' : Layout) × (p ≡ chunk_address i)
        × (m ≡ render s')
        × (length (render s') ≡ heap_arr_size)
        × (p + size < chunk_address (i + suc (size / 8)))
        × (i + suc (size / 8) ≤ heap_arr_size)
        × ((j : ℕ) → i ≤ j → j ≤ i + size / 8 → covered s j ≡ false)
        × ((j : ℕ) → covered s' j ≡ ((leb i j && leb j (i + size / 8)) || covered s j))
  kmalloc_disjoint p m e =
      let (i, s', found, at, is) = allocated-some _ (sym (kmalloc-first_fit s size hl hs) ∙ e) in
      let (inside, same, _, was, now) = Fits-some (size / 8) s found in
      (i, s', sym at, sym is, same ∙ hl, omega (arith, at), omega (arith, hl), was, now)

  -- `kfree` of a pointer that `kmalloc` returned gives back the heap as it was.
  pub kfree-kmalloc :
      (p : ℕ) (m : List ℕ) → kmalloc (render s) size ≡ some (p, m) → kfree m p ≡ some (render s)
  unfolding kfree
  kfree-kmalloc p m e =
      let (i, s', found, at, is) = allocated-some _ (sym (kmalloc-first_fit s size hl hs) ∙ e) in
      let (inside, same, back, _, _) = Fits-some (size / 8) s found in
      let chunk : (p - kernel_heap_start) / 8 ≡ i = omega (arith, at) in
      let low : ltb p kernel_heap_start ≡ false = ground (arith, at) in
      let high : ltb kernel_heap_end p ≡ false = ground (arith, at, inside, hl) in
      rw (low, high, chunk) (ap (λ t. some (set t i 0)) (sym is) ∙ ap some back)

-- `kfree` panics exactly on an address outside the heap.
pub kfree_panics :
    (m : List ℕ) (p : ℕ)
    → (kfree m p ≡ none → (p < kernel_heap_start) ⊎ (kernel_heap_end < p))
      × ((p < kernel_heap_start) ⊎ (kernel_heap_end < p) → kfree m p ≡ none)
unfolding kfree
kfree_panics m p = (λ h. ground arith, λ h. ground arith)
