-- ===== src/Libk/Kmalloc/Layout.antt =====
-- The heap as a row of free chunks and blocks, and first fit on it.
use pi_os.Common.{
  ℕ, suc, ◌+◌, Option, none, some, List, [], ◌∷◌, ◌++◌, leb, if◌then◌else◌, replicate, drop,
}

pub data Segment : Type 0 where
  -- one free chunk
  gap : Segment
  -- an allocated block of `suc n` chunks
  block : ℕ → Segment

abbrev pub Layout : Type 0
Layout = List Segment

-- The array that stands for a layout.
abbrev pub render : Layout → List ℕ
render [] = []
render (gap ∷ s) = 0 ∷ render s
render (block n ∷ s) = suc n ∷ (replicate n 0 ++ render s)

abbrev pub gaps : ℕ → Layout
gaps n = replicate n gap

-- How many free chunks the layout starts with.
abbrev pub leading_gaps : Layout → ℕ
leading_gaps [] = 0
leading_gaps (gap ∷ s) = suc (leading_gaps s)
leading_gaps (block _ ∷ s) = 0

abbrev pub shift : ℕ → Segment → Option (ℕ × Layout) → Option (ℕ × Layout)
shift n g none = none
shift n g (some (i, s)) = some (n + i, g ∷ s)

-- First fit: the first place where `suc need` free chunks follow one another becomes a block.
unfoldable pub first_fit : ℕ → Layout → Option (ℕ × Layout)
first_fit need [] = none
first_fit need (gap ∷ s) =
    if leb need (leading_gaps s)
    then some (0, block need ∷ drop need s)
    else shift 1 gap (first_fit need s)
first_fit need (block n ∷ s) = shift (suc n) (block n) (first_fit need s)

-- The number of free chunks.
unfoldable pub free_chunks : Layout → ℕ
free_chunks [] = 0
free_chunks (gap ∷ s) = suc (free_chunks s)
free_chunks (block _ ∷ s) = free_chunks s
