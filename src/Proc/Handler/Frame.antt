-- ===== src/Proc/Handler/Frame.antt =====
-- One page of memory: what is read back after a store.
use pi_os.Common.{ℕ, zero, suc, ◌+◌, ◌≤◌, ◌<◌, ◌≡◌, refl, ap₂, ◌∙◌, arith, List, [], ◌∷◌, length}
use pi_os.Proc.Virtual.{Memory, poke, bytes_at, store_at}

store_at_before :
    (mem : Memory) (p r a : ℕ) (xs : List ℕ) → a < r → store_at mem p r xs p a ≡ mem p a
unfolding store_at
store_at_before mem p r a [] h = refl
store_at_before mem p r a (x ∷ xs) h =
    store_at_before (poke mem p r x) p (r + 1) a xs (omega arith) ∙ ground arith

pub store_at_after :
    (mem : Memory) (p r a : ℕ) (xs : List ℕ) → r + length xs ≤ a → store_at mem p r xs p a ≡ mem p a
unfolding store_at
store_at_after mem p r a [] h = refl
store_at_after mem p r a (x ∷ xs) h =
    store_at_after (poke mem p r x) p (r + 1) a xs (omega arith) ∙ ground arith

-- What was stored is read.
pub bytes_at-store_at :
    (mem : Memory) (p r : ℕ) (xs : List ℕ) → bytes_at (store_at mem p r xs) p r (length xs) ≡ xs
unfolding bytes_at store_at
bytes_at-store_at mem p r [] = refl
bytes_at-store_at mem p r (x ∷ xs) =
    ap₂ ◌∷◌ (store_at_before (poke mem p r x) p (r + 1) r xs (omega arith) ∙ ground arith)
      (bytes_at-store_at (poke mem p r x) p (r + 1) xs)

-- A store before the bytes leaves them.
pub bytes_at-store_at_after :
    (mem : Memory) (p r : ℕ) (xs : List ℕ) (n a : ℕ)
    → r + length xs ≤ a
    → bytes_at (store_at mem p r xs) p a n ≡ bytes_at mem p a n
unfolding bytes_at
bytes_at-store_at_after mem p r xs zero a h = refl
bytes_at-store_at_after mem p r xs (suc n) a h =
    ap₂ ◌∷◌ (store_at_after mem p r a xs h)
      (bytes_at-store_at_after mem p r xs n (a + 1) (omega arith))
