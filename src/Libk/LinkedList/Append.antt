-- ===== src/Libk/LinkedList/Append.antt =====
-- `list_append` puts its value at the end.
use pi_os.Common.{
  ℕ, ◌≡◌, ◌≢◌, refl, ap, true, false, Option, none, some, [], ◌∷◌, ◌++◌, arith, ◌==◌, sym, ◌∙◌,
}
use pi_os.Libk.LinkedList.{Ptr, null, ListNode, Store, ListHead, write, list_init, list_append}
use pi_os.Libk.LinkedList.Chain.{
  Cells, contains, last_of, list_node, Linked, IsList, contains-last_of, Linked-relink_next,
  Linked-append, last_of-append, write_self, write_ne,
}

-- A fresh `struct list` is empty.
pub list_init-IsList : (h : Store) → IsList h list_init []
unfolding list_init
list_init-IsList h = record { linked = tt; at_first = refl; at_last = refl }

-- The last node of a list is there.
last_node :
    (h : Store) (prev next p v : ℕ) (xs : Cells)
    → Linked h prev next ((p, v) ∷ xs)
    → (n : ListNode) × (h (last_of p xs) ≡ some n)
last_node h prev next p v [] l = (_, l.1)
last_node h prev next p v ((q, w) ∷ xs) l = last_node h p next q w xs l.3

-- A store that differs from a list's as `list_append` makes it differ.
module _ (h g : Store) (p w fresh v : ℕ) (xs : Cells) (l : Linked h null null ((p, w) ∷ xs))
    (ne : fresh ≢ null) (out : contains fresh ((p, w) ∷ xs) ≡ false)
    (at_fresh : g fresh ≡ list_node null (last_of p xs) v)
    (at_last : (n : ListNode)
      → h (last_of p xs) ≡ some n
      → g (last_of p xs) ≡ some (record n { next = fresh }))
    (kept : (a : Ptr) → a ≢ fresh → a ≢ last_of p xs → g a ≡ h a) where
  apart : (a : Ptr) → contains a ((p, w) ∷ xs) ≡ true → a ≢ fresh
  apart a i = ground arith

  snoc-Linked : Linked g null null (((p, w) ∷ xs) ++ ((fresh, v) ∷ []))
  snoc-Linked =
      Linked-append g null null ((p, w) ∷ xs) ((fresh, v) ∷ [])
        (Linked-relink_next h g null null fresh ((p, w) ∷ xs) l
          (λ a n j e i. ground (arith, at_last n)) (λ a i m. kept a (apart a i) m))
        (ne, at_fresh, refl, tt) (λ a i. ground (arith, apart a i))

abbrev relink : Ptr → Option ListNode → Option ListNode
relink q none = none
relink q (some n) = some (record n { next = q })

-- `list_append` on a fresh node appends the value, and writes only that node and the last one.
pub list_append-snoc :
    {h : Store} {list : ListHead} (xs : Cells) (fresh v : ℕ)
    → IsList h list xs
    → fresh ≢ null
    → contains fresh xs ≡ false
    → (g : Store) × (list' : ListHead) × (list_append fresh h list v ≡ some (g, list'))
      × IsList g list' (xs ++ ((fresh, v) ∷ []))
      × ((a : Ptr) → a ≢ fresh → a ≢ last_of null xs → g a ≡ h a)
unfolding list_append write
list_append-snoc {h} {list} [] fresh v is ne out = (
  write h fresh (list_node null list.last v),
  record { first = fresh; last = fresh },
  ground (arith, is.at_first),
  record { linked = (ne, ground (arith, is.at_last), refl, tt); at_first = refl; at_last = refl },
  λ a m o. ground arith,
)
list_append-snoc {h} {list} ((p, w) ∷ xs) fresh v is ne out =
    let (tail, at_tail) = last_node h null null p w xs is.linked in
    let h' = write h fresh (list_node null list.last v) in
    let last_in = contains-last_of p w xs in
    let first_ne : (list.first == null) ≡ false = ground (arith, is.at_first, is.linked.0) in
    let last_ne : list.last ≢ fresh = λ e. ground (arith, is.at_last, last_in) in
    let tail_here : h' list.last ≡ some tail = ground (arith, last_ne, is.at_last, at_tail) in
    let g = write h' list.last (some (record tail { next = fresh })) in
    let kept : (a : Ptr) → a ≢ fresh → a ≢ last_of p xs → g a ≡ h a =
      λ a m o. write_ne h' list.last _ a (λ e. o (e ∙ is.at_last)) ∙ write_ne h fresh _ a m in
    (
      g,
      record list { last = fresh },
      rw (first_ne, tail_here),
      record {
        linked =
            snoc-Linked h g p w fresh v xs is.linked ne out
              (write_ne h' list.last _ fresh (λ e. last_ne (sym e))
                ∙ write_self h fresh _
                ∙ ap (λ q. list_node null q v) is.at_last)
              (λ n e.
                ap g (sym is.at_last)
                ∙ write_self h' list.last _
                ∙ ap (relink fresh) (sym at_tail ∙ e))
              kept;
        at_first = is.at_first;
        at_last = sym (last_of-append p xs ((fresh, v) ∷ []));
      },
      kept,
    )
