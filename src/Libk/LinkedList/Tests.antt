-- ===== src/Libk/LinkedList/Tests.antt =====
-- list.c on a list of two nodes.
use pi_os.Common.{◌≡◌, refl, arith, false, none, some, [], ◌∷◌}
use pi_os.Libk.LinkedList.{Ptr, Store, ListHead, write, list_remove}
use pi_os.Libk.LinkedList.Chain.{Cells, contains, list_node, IsList}
use pi_os.Libk.LinkedList.Remove.{list_remove-append}

abbrev two : Cells
two = (1, 10) ∷ (2, 20) ∷ []

abbrev store : Store
store = write (write (λ _. none) 1 (list_node 2 0 10)) 2 (list_node 0 1 20)

abbrev list : ListHead
list = record { first = 1; last = 2 }

two-IsList : IsList store list two
unfolding write
two-IsList = record {
  linked = (omega arith, refl, refl, (omega arith, refl, refl, tt));
  at_first = refl;
  at_last = refl;
}

list_remove-append_example :
    (g : Store) × (list' : ListHead) × (list_remove store list 1 ≡ some (g, list'))
    × IsList g list' ((2, 20) ∷ [])
    × (g 1 ≡ none)
    × ((a : Ptr) → contains a two ≡ false → g a ≡ store a)
list_remove-append_example = list_remove-append store list 1 10 [] ((2, 20) ∷ []) two-IsList
