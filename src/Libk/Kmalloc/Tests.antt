-- ===== src/Libk/Kmalloc/Tests.antt =====
-- kmalloc.c at a heap with one block, and its theorems there.
use pi_os.Common.{
  ℕ, suc, ◌+◌, ◌/◌, ◌≤◌, ◌<◌, ◌≡◌, refl, arith, false, ◌&&◌, ◌||◌, some, ◌∷◌, leb, length,
}
use pi_os.Libk.Kmalloc.{heap_arr_size, chunk_address, kmalloc}
use pi_os.Libk.Kmalloc.Layout.{Layout, gap, block, gaps, render, first_fit}
use pi_os.Libk.Kmalloc.Refine.{allocated, kmalloc-first_fit}
use pi_os.Libk.Kmalloc.Blocks.{covered, kmalloc_disjoint}

-- A free chunk, a block of two chunks, and free chunks to the end.
abbrev used : Layout
used = gap ∷ block 1 ∷ gaps 2172

abbrev used_more : Layout
used_more = gap ∷ block 1 ∷ block 2 ∷ gaps 2169

kmalloc-used : kmalloc (render used) 20 ≡ some (0xA018, render used_more)
unfolding first_fit
kmalloc-used = kmalloc-first_fit used 20 refl (omega arith)

kmalloc-first_fit_example : kmalloc (render used) 20 ≡ allocated (some (3, used_more))
unfolding first_fit
kmalloc-first_fit_example = kmalloc-first_fit used 20 refl (omega arith)

kmalloc_disjoint_example :
    (i : ℕ) × (s' : Layout) × (0xA018 ≡ chunk_address i)
    × (render used_more ≡ render s')
    × (length (render s') ≡ heap_arr_size)
    × (0xA018 + 20 < chunk_address (i + suc (20 / 8)))
    × (i + suc (20 / 8) ≤ heap_arr_size)
    × ((j : ℕ) → i ≤ j → j ≤ i + 20 / 8 → covered used j ≡ false)
    × ((j : ℕ) → covered s' j ≡ ((leb i j && leb j (i + 20 / 8)) || covered used j))
kmalloc_disjoint_example =
    kmalloc_disjoint used 20 refl (omega arith) 0xA018 (render used_more) kmalloc-used
