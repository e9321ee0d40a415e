-- ===== src/Common/Lists.antt =====
-- Lists measured and indexed by native numbers: C arrays and buffers.
use Prim.Native.Nat.{ℕ, zero, suc, ◌+◌, ◌-◌, ◌<◌, ◌≤◌, min}
use mathlib.Core.Path.{◌≡◌, refl, ap, sym, ◌∙◌}
use mathlib.Core.Logic.{◌≢◌}
use mathlib.Core.List.{List, [], ◌∷◌, ◌++◌}
use mathlib.Core.Option.{Option, none, some}
use native.Mathlib.Omega.{arith}

module _ {ℓ} {A : Type ℓ} where
  abbrev pub length : List A → ℕ
  length [] = 0
  length (_ ∷ xs) = suc (length xs)

  abbrev pub get_elem? : List A → ℕ → Option A
  get_elem? [] _ = none
  get_elem? (x ∷ _) zero = some x
  get_elem? (_ ∷ xs) (suc i) = get_elem? xs i

  abbrev pub get_or : List A → ℕ → A → A
  get_or [] _ d = d
  get_or (x ∷ _) zero _ = x
  get_or (_ ∷ xs) (suc i) d = get_or xs i d

  -- A write out of bounds changes nothing.
  abbrev pub set : List A → ℕ → A → List A
  set [] _ _ = []
  set (_ ∷ xs) zero v = v ∷ xs
  set (x ∷ xs) (suc i) v = x ∷ set xs i v

  abbrev pub take : ℕ → List A → List A
  take zero _ = []
  take (suc n) [] = []
  take (suc n) (x ∷ xs) = x ∷ take n xs

  abbrev pub drop : ℕ → List A → List A
  drop zero xs = xs
  drop (suc n) [] = []
  drop (suc n) (_ ∷ xs) = drop n xs

  abbrev pub replicate : ℕ → A → List A
  replicate zero _ = []
  replicate (suc n) a = a ∷ replicate n a

  pub length-append : (xs ys : List A) → length (xs ++ ys) ≡ length xs + length ys
  length-append [] ys = omega arith
  length-append (x ∷ xs) ys = omega (arith, length-append xs ys)

  pub length-set : (xs : List A) (i : ℕ) (v : A) → length (set xs i v) ≡ length xs
  length-set [] i v = refl
  length-set (x ∷ xs) zero v = refl
  length-set (x ∷ xs) (suc i) v = ap suc (length-set xs i v)

  pub length-replicate : (n : ℕ) (a : A) → length (replicate n a) ≡ n
  length-replicate zero a = refl
  length-replicate (suc n) a = ap suc (length-replicate n a)

  pub length-take : (n : ℕ) (xs : List A) → length (take n xs) ≡ min n (length xs)
  length-take zero xs = omega arith
  length-take (suc n) [] = omega arith
  length-take (suc n) (x ∷ xs) = omega (arith, length-take n xs)

  pub length-drop : (n : ℕ) (xs : List A) → length (drop n xs) ≡ length xs - n
  length-drop zero xs = omega arith
  length-drop (suc n) [] = omega arith
  length-drop (suc n) (x ∷ xs) = omega (arith, length-drop n xs)

  pub take_all : (n : ℕ) (xs : List A) → length xs ≤ n → take n xs ≡ xs
  take_all zero [] h = refl
  take_all zero (x ∷ xs) h = absurd (omega arith)
  take_all (suc n) [] h = refl
  take_all (suc n) (x ∷ xs) h = ap (λ t. x ∷ t) (take_all n xs (omega arith))

  pub take-append : (xs ys : List A) → take (length xs) (xs ++ ys) ≡ xs
  take-append [] ys = refl
  take-append (x ∷ xs) ys = ap (λ t. x ∷ t) (take-append xs ys)

  pub take-prefix : (n : ℕ) (xs ys : List A) → n ≡ length xs → take n (xs ++ ys) ≡ xs
  take-prefix n xs ys h = ap (λ k. take k (xs ++ ys)) h ∙ take-append xs ys

  pub drop-prefix : (n : ℕ) (xs ys : List A) → n ≡ length xs → drop n (xs ++ ys) ≡ ys
  drop-prefix zero [] ys h = refl
  drop-prefix zero (x ∷ xs) ys h = absurd (omega arith)
  drop-prefix (suc n) [] ys h = absurd (omega arith)
  drop-prefix (suc n) (x ∷ xs) ys h = drop-prefix n xs ys (omega arith)

  pub get_or-set_self :
      (xs : List A) (i : ℕ) (v d : A) → i < length xs → get_or (set xs i v) i d ≡ v
  get_or-set_self [] i v d h = absurd (omega arith)
  get_or-set_self (x ∷ xs) zero v d h = refl
  get_or-set_self (x ∷ xs) (suc i) v d h = get_or-set_self xs i v d (omega arith)

  pub get_or-set_ne :
      (xs : List A) (i j : ℕ) (v d : A) → i ≢ j → get_or (set xs i v) j d ≡ get_or xs j d
  get_or-set_ne [] i j v d h = refl
  get_or-set_ne (x ∷ xs) zero zero v d h = absurd (h refl)
  get_or-set_ne (x ∷ xs) zero (suc j) v d h = refl
  get_or-set_ne (x ∷ xs) (suc i) zero v d h = refl
  get_or-set_ne (x ∷ xs) (suc i) (suc j) v d h = get_or-set_ne xs i j v d (λ e. h (ap suc e))

module _ {ℓ} {A : Type ℓ} where
  pub get_elem?-set_self :
      (xs : List A) (i : ℕ) (v : A) → i < length xs → get_elem? (set xs i v) i ≡ some v
  get_elem?-set_self [] i v h = absurd (omega arith)
  get_elem?-set_self (x ∷ xs) zero v h = refl
  get_elem?-set_self (x ∷ xs) (suc i) v h = get_elem?-set_self xs i v (omega arith)

  pub get_elem?-set_ne :
      (xs : List A) (i j : ℕ) (v : A) → i ≢ j → get_elem? (set xs i v) j ≡ get_elem? xs j
  get_elem?-set_ne [] i j v h = refl
  get_elem?-set_ne (x ∷ xs) zero zero v h = absurd (h refl)
  get_elem?-set_ne (x ∷ xs) zero (suc j) v h = refl
  get_elem?-set_ne (x ∷ xs) (suc i) zero v h = refl
  get_elem?-set_ne (x ∷ xs) (suc i) (suc j) v h = get_elem?-set_ne xs i j v (λ e. h (ap suc e))

  -- Writing what is there changes nothing.
  pub set-get_elem? : (xs : List A) (i : ℕ) (v : A) → get_elem? xs i ≡ some v → set xs i v ≡ xs
  set-get_elem? [] i v h = refl
  set-get_elem? (x ∷ xs) zero v h = ap (λ t. t ∷ xs) (cc (sym h))
  set-get_elem? (x ∷ xs) (suc i) v h = ap (λ t. x ∷ t) (set-get_elem? xs i v h)

  pub get_elem?-lt : (xs : List A) (i : ℕ) → i < length xs → (v : A) × (get_elem? xs i ≡ some v)
  get_elem?-lt [] i h = absurd (omega arith)
  get_elem?-lt (x ∷ xs) zero h = (x, refl)
  get_elem?-lt (x ∷ xs) (suc i) h = get_elem?-lt xs i (omega arith)

  pub lt-of_get_elem? : (xs : List A) (i : ℕ) (v : A) → get_elem? xs i ≡ some v → i < length xs
  lt-of_get_elem? [] i v h = cc
  lt-of_get_elem? (x ∷ xs) zero v h = omega arith
  lt-of_get_elem? (x ∷ xs) (suc i) v h = omega (arith, lt-of_get_elem? xs i v h)

module _ {ℓ} {A : Type ℓ} where
  pub take-drop-take :
      (r p n : ℕ) (xs : List A) → p + r ≤ n → take r (drop p (take n xs)) ≡ take r (drop p xs)
  take-drop-take zero p n xs h = refl
  take-drop-take (suc r) zero zero xs h = absurd (omega arith)
  take-drop-take (suc r) (suc p) zero xs h = absurd (omega arith)
  take-drop-take (suc r) zero (suc n) [] h = refl
  take-drop-take (suc r) (suc p) (suc n) [] h = refl
  take-drop-take (suc r) zero (suc n) (x ∷ xs) h =
      ap (λ t. x ∷ t) (take-drop-take r zero n xs (omega arith))
  take-drop-take (suc r) (suc p) (suc n) (x ∷ xs) h = take-drop-take (suc r) p n xs (omega arith)

  take-nil : (n : ℕ) → take {A = A} n [] ≡ []
  take-nil zero = refl
  take-nil (suc n) = refl

  drop-nil : (n : ℕ) → drop {A = A} n [] ≡ []
  drop-nil zero = refl
  drop-nil (suc n) = refl

  pub drop-drop : (m p : ℕ) (xs : List A) → drop p (drop m xs) ≡ drop (m + p) xs
  drop-drop zero p xs = ap (λ n. drop n xs) (let e : p ≡ 0 + p = omega arith in e)
  drop-drop (suc m) p [] = drop-nil p ∙ sym (drop-nil (suc m + p))
  drop-drop (suc m) p (x ∷ xs) =
      let e : suc (m + p) ≡ suc m + p = omega arith in
      drop-drop m p xs ∙ ap (λ n. drop n (x ∷ xs)) e

  pub take-split : (a b : ℕ) (xs : List A) → take a xs ++ take b (drop a xs) ≡ take (a + b) xs
  take-split zero b xs = ap (λ n. take n xs) (let e : b ≡ 0 + b = omega arith in e)
  take-split (suc a) b [] = take-nil b ∙ sym (take-nil (suc a + b))
  take-split (suc a) b (x ∷ xs) =
      let e : suc (a + b) ≡ suc a + b = omega arith in
      ap (λ t. x ∷ t) (take-split a b xs) ∙ ap (λ n. take n (x ∷ xs)) e

  pub drop-take : (a b : ℕ) (xs : List A) → drop a (take (a + b) xs) ≡ take b (drop a xs)
  drop-take zero b xs = ap (λ n. take n xs) (let e : 0 + b ≡ b = omega arith in e)
  drop-take (suc a) b [] =
      let e : suc a + b ≡ suc (a + b) = omega arith in
      ap (λ n. drop (suc a) (take n [])) e ∙ sym (take-nil b)
  drop-take (suc a) b (x ∷ xs) =
      let e : suc a + b ≡ suc (a + b) = omega arith in
      ap (λ n. drop (suc a) (take n (x ∷ xs))) e ∙ drop-take a b xs
