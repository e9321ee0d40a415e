-- ===== src/Libk/LinkedList/Remove.antt =====
-- `list_remove` takes one node out of a list.
use pi_os.Common.{
  ℕ, ◌≡◌, ◌≢◌, refl, ap, Bool, true, false, Option, none, some, [], ◌∷◌, ◌++◌, arith, append-nil,
  ◌==◌, inl, inr, sym, subst, ◌∙◌, ==→eq, ==→ne, or-false, or-true, ne→==,
}
use pi_os.Libk.LinkedList.{
  Ptr, null, ListNode, Store, ListHead, write, bind, list_remove, unlink_next, unlink_prev,
  release_node,
}
use pi_os.Libk.LinkedList.Chain.{
  Cells, contains, first_of, last_of, list_node, Linked, IsList, contains-last_of, last_of-ne_null,
  Linked-frame, Linked-relink_next, Linked-append, last_of-append, contains-append, write_self,
  write_ne,
}

-- The two halves of a list, and that they share no node.
Linked-split :
    (h : Store) (prev next : Ptr) (xs ys : Cells)
    → Linked h prev next (xs ++ ys)
    → Linked h prev (first_of ys next) xs
      × Linked h (last_of prev xs) next ys
      × ((a : Ptr) → contains a xs ≡ true → contains a ys ≡ false)
Linked-split h prev next [] ys l = (tt, l, λ a i. cc)
Linked-split h prev next ((p, v) ∷ []) ys (n, at, out, l) =
    ((n, at, refl, tt), l, λ a i. ground arith)
Linked-split h prev next ((p, v) ∷ (q, w) ∷ xs) ys (n, at, out, l) =
    let (front, back, apart) = Linked-split h p next ((q, w) ∷ xs) ys l in
    let outs = or-false _ _ (sym (contains-append p ((q, w) ∷ xs) ys) ∙ out) in
    (
      (n, at, outs.0, front),
      back,
      λ a i. elim (or-true (a == p) _ i) [ inl e ↦ rw (==→eq a p e) outs.1 | inr j ↦ apart a j ],
    )

-- The first node's `prev` may be turned to another node.
Linked-relink_prev :
    (h g : Store) (prev next prev' : Ptr) (xs : Cells)
    → Linked h prev next xs
    → ((p : Ptr) (n : ListNode)
        → contains p xs ≡ true
        → p ≡ first_of xs null
        → h p ≡ some n
        → g p ≡ some (record n { prev = prev' }))
    → ((a : Ptr) → contains a xs ≡ true → a ≢ first_of xs null → g a ≡ h a)
    → Linked g prev' next xs
Linked-relink_prev h g prev next prev' [] l turned same = tt
Linked-relink_prev h g prev next prev' ((p, v) ∷ xs) (n, at, out, l) turned same = (
  n,
  turned p _ (ground arith) refl at,
  out,
  Linked-frame h g p next xs l (λ a i. same a (ground arith) (λ e. ground (arith, e))),
)

-- A store that differs from a list's as `list_remove` of `p` makes it differ.
module _ (h g : Store) (p v : ℕ) (xs ys : Cells) (l : Linked h null null (xs ++ ((p, v) ∷ ys)))
    (at_next : (a : Ptr) (n : ListNode)
      → contains a ys ≡ true
      → a ≡ first_of ys null
      → h a ≡ some n
      → g a ≡ some (record n { prev = last_of null xs }))
    (at_prev : (a : Ptr) (n : ListNode)
      → contains a xs ≡ true
      → a ≡ last_of null xs
      → h a ≡ some n
      → g a ≡ some (record n { next = first_of ys null }))
    (kept : (a : Ptr)
      → a ≢ p
      → (contains a ys ≡ true → a ≢ first_of ys null)
      → (contains a xs ≡ true → a ≢ last_of null xs)
      → g a ≡ h a) where
  removed-Linked : Linked g null null (xs ++ ys)
  removed-Linked =
      let (front, (n, at, out, back), apart) = Linked-split h null null xs ((p, v) ∷ ys) l in
      let apart' : (a : Ptr) → contains a xs ≡ true → (a ≢ p) × (contains a ys ≡ false) =
        λ a i. let o = or-false _ _ (apart a i) in (==→ne a p o.0, o.1) in
      Linked-append g null null xs ys
        (Linked-relink_next h g null p (first_of ys null) xs front at_prev
          (λ a i m. kept a (apart' a i).0 (λ j. cc ((apart' a i).1)) (λ _. m)))
        (Linked-relink_prev h g p null (last_of null xs) ys back at_next
          (λ a i m. kept a (λ e. ground (arith, e)) (λ _. m) (λ j. cc ((apart' a j).1))))
        (λ a i. (apart' a i).1)

abbrev relink : Ptr → Option ListNode → Option ListNode
relink q none = none
relink q (some n) = some (record n { next = q })

abbrev reprev : Ptr → Option ListNode → Option ListNode
reprev q none = none
reprev q (some n) = some (record n { prev = q })

-- The store after the write through `list_node->next`, and after that through `list_node->prev`.
abbrev fix_next : Store → Cells → Ptr → Store
fix_next h [] q = h
fix_next h ((p, _) ∷ ys) q = write h p (reprev q (h p))

abbrev fix_prev : Store → Cells → Ptr → Store
fix_prev h [] q = h
fix_prev h ((p, _) ∷ xs) q = write h (last_of p xs) (relink q (h (last_of p xs)))

fix_next_self :
    (h : Store) (ys : Cells) (q a : Ptr) (n : ListNode)
    → contains a ys ≡ true
    → a ≡ first_of ys null
    → h a ≡ some n
    → fix_next h ys q a ≡ some (record n { prev = q })
fix_next_self h [] q a n i e s = cc
fix_next_self h ((p, w) ∷ ys) q a n i e s =
    rw e (write_self h p (reprev q (h p)) ∙ ap (reprev q) (ap h (sym e) ∙ s))

fix_next_ne :
    (h : Store) (ys : Cells) (q a : Ptr)
    → (contains a ys ≡ true → a ≢ first_of ys null)
    → fix_next h ys q a ≡ h a
fix_next_ne h [] q a k = refl
fix_next_ne h ((p, w) ∷ ys) q a k = write_ne h p _ a (λ e. k (ground (arith, e)) e)

fix_prev_self :
    (h : Store) (xs : Cells) (q a : Ptr) (n : ListNode)
    → contains a xs ≡ true
    → a ≡ last_of null xs
    → h a ≡ some n
    → fix_prev h xs q a ≡ some (record n { next = q })
fix_prev_self h [] q a n i e s = cc
fix_prev_self h ((p, w) ∷ xs) q a n i e s =
    rw e (write_self h (last_of p xs) _ ∙ ap (relink q) (ap h (sym e) ∙ s))

fix_prev_ne :
    (h : Store) (xs : Cells) (q a : Ptr)
    → (contains a xs ≡ true → a ≢ last_of null xs)
    → fix_prev h xs q a ≡ h a
fix_prev_ne h [] q a k = refl
fix_prev_ne h ((p, w) ∷ xs) q a k =
    write_ne h _ _ a
      (λ e. k (subst (λ b. contains b ((p, w) ∷ xs) ≡ true) (sym e) (contains-last_of p w xs)) e)

last_node :
    (h : Store) (prev next p v : ℕ) (xs : Cells)
    → Linked h prev next ((p, v) ∷ xs)
    → (n : ListNode) × (h (last_of p xs) ≡ some n)
last_node h prev next p v [] l = (_, l.1)
last_node h prev next p v ((q, w) ∷ xs) l = last_node h p next q w xs l.3

-- `q` if there are no nodes, else `p`.
abbrev end_after : Cells → Ptr → Ptr → Ptr
end_after [] q p = q
end_after (_ ∷ _) q p = p

unlink_next-fix :
    (h : Store) (list : ListHead) (next' : Ptr) (node : ListNode) (ys : Cells) (prev : Ptr)
    → Linked h prev next' ys
    → node.next ≡ first_of ys null
    → unlink_next h list node
      ≡ some (fix_next h ys node.prev, record list { last = end_after ys node.prev list.last })
unfolding unlink_next
unlink_next-fix h list next' node [] prev l e = rw e
unlink_next-fix h list next' node ((q, w) ∷ ys) prev (n, at, _, _) e =
    let ne : (node.next == null) ≡ false = ground (arith, e, n) in
    let here : h node.next ≡ list_node (first_of ys next') prev w = ap h e ∙ at in
    rw (ne, here, e, at)

unlink_prev-fix :
    (h : Store) (list : ListHead) (p v : ℕ) (next : Ptr) (xs : Cells)
    → Linked h null p xs
    → h p ≡ list_node next (last_of null xs) v
    → unlink_prev p (h, list)
      ≡ some (fix_prev h xs next, record list { first = end_after xs next list.first })
unfolding unlink_prev
unlink_prev-fix h list p v next [] l e = rw e
unlink_prev-fix h list p v next ((q, w) ∷ xs) l e =
    let (n, at) = last_node h null p q w xs l in
    let ne : (last_of q xs == null) ≡ false = ne→== _ _ (last_of-ne_null h null p q w xs l) in
    rw (e, ne, at)

abbrev new_first : ListHead → Cells → Cells → Ptr
new_first list xs ys = end_after xs (first_of ys null) list.first

abbrev new_last : ListHead → Cells → Cells → Ptr
new_last list xs ys = end_after ys (last_of null xs) list.last

new_first-first_of :
    (list : ListHead) (xs ys : Cells) (p v : ℕ)
    → list.first ≡ first_of (xs ++ ((p, v) ∷ ys)) null
    → new_first list xs ys ≡ first_of (xs ++ ys) null
new_first-first_of list [] ys p v e = refl
new_first-first_of list ((q, w) ∷ xs) ys p v e = e

new_last-last_of :
    (list : ListHead) (xs ys : Cells) (p v : ℕ)
    → list.last ≡ last_of null (xs ++ ((p, v) ∷ ys))
    → new_last list xs ys ≡ last_of null (xs ++ ys)
new_last-last_of list xs [] p v e = ap (last_of null) (sym (append-nil xs))
new_last-last_of list xs ((q, w) ∷ ys) p v e =
    e ∙ last_of-append null xs ((p, v) ∷ (q, w) ∷ ys) ∙ sym (last_of-append null xs ((q, w) ∷ ys))

absent : (b : Bool) → b ≡ false → b ≡ true → ⊥
absent b e i = cc

-- The store that `list_remove` leaves.
module _ (h : Store) (p v : ℕ) (xs ys : Cells) (l : Linked h null null (xs ++ ((p, v) ∷ ys))) where
  abbrev prev : Ptr
  prev = last_of null xs

  abbrev next : Ptr
  next = first_of ys null

  abbrev left : Store
  left = write (fix_prev (fix_next h ys prev) xs next) p none

  left-kept :
      (a : Ptr)
      → a ≢ p
      → (contains a ys ≡ true → a ≢ next)
      → (contains a xs ≡ true → a ≢ prev)
      → left a ≡ h a
  left-kept a n i j = write_ne _ p none a n ∙ fix_prev_ne _ xs next a j ∙ fix_next_ne h ys prev a i

  apart : (a : Ptr) → contains a xs ≡ true → (a ≢ p) × (contains a ys ≡ false)
  apart a i =
      let o = or-false _ _ ((Linked-split h null null xs ((p, v) ∷ ys) l).2 a i) in
      (==→ne a p o.0, o.1)

  left-Linked : Linked left null null (xs ++ ys)
  left-Linked =
      let (front, (n, at, out, back), _) = Linked-split h null null xs ((p, v) ∷ ys) l in
      removed-Linked h left p v xs ys l
        (λ a n i e s.
          write_ne _ p none a (λ q. absent _ out (subst (λ b. contains b ys ≡ true) q i))
          ∙ fix_prev_ne _ xs next a (λ j _. absent _ (apart a j).1 i)
          ∙ fix_next_self h ys prev a n i e s)
        (λ a n j e s.
          write_ne _ p none a (apart a j).0
          ∙ fix_prev_self _ xs next a n j e
              (fix_next_ne h ys prev a (λ i _. absent _ (apart a j).1 i) ∙ s))
        left-kept

  list_remove-left :
      (list : ListHead)
      → list_remove h list p
        ≡ some (left, record { first = new_first list xs ys; last = new_last list xs ys })
  unfolding list_remove release_node
  list_remove-left list =
      let (front, (n, at, out, back), _) = Linked-split h null null xs ((p, v) ∷ ys) l in
      let h1 = fix_next h ys prev in
      let node : ListNode = record { next = next; prev = prev; val = v } in
      let list1 : ListHead = record list { last = new_last list xs ys } in
      let step1 = unlink_next-fix h list null node ys p back refl in
      let at1 : h1 p ≡ list_node next prev v =
        fix_next_ne h ys prev p (λ i _. absent _ out i) ∙ at in
      let front1 =
        Linked-frame h h1 null p xs front
          (λ a j. fix_next_ne h ys prev a (λ i _. absent _ (apart a j).1 i)) in
      let step2 = unlink_prev-fix h1 list1 p v next xs front1 at1 in
      ap (λ o. bind (bind (bind o (unlink_next h list)) (unlink_prev p)) (release_node p)) at
      ∙ ap (λ o. bind (bind o (unlink_prev p)) (release_node p)) step1
      ∙ ap (λ o. bind o (release_node p)) step2

-- `list_remove` of a node of a list takes out its value, keeps the others in order, gives the node
-- back to the heap, and writes nowhere outside the list's nodes.
pub list_remove-append :
    (h : Store) (list : ListHead) (p v : ℕ) (xs ys : Cells)
    → IsList h list (xs ++ ((p, v) ∷ ys))
    → (g : Store) × (list' : ListHead) × (list_remove h list p ≡ some (g, list'))
      × IsList g list' (xs ++ ys)
      × (g p ≡ none)
      × ((a : Ptr) → contains a (xs ++ ((p, v) ∷ ys)) ≡ false → g a ≡ h a)
list_remove-append h list p v xs ys is = (
  left h p v xs ys is.linked,
  record { first = new_first list xs ys; last = new_last list xs ys },
  list_remove-left h p v xs ys is.linked list,
  record {
    linked = left-Linked h p v xs ys is.linked;
    at_first = new_first-first_of list xs ys p v is.at_first;
    at_last = new_last-last_of list xs ys p v is.at_last;
  },
  write_self _ p none,
  λ a o.
      let (o1, o2) = or-false _ _ (sym (contains-append a xs ((p, v) ∷ ys)) ∙ o) in
      let (o3, o4) = or-false _ _ o2 in
      left-kept h p v xs ys is.linked a (==→ne a p o3) (λ i _. absent _ o4 i)
        (λ j _. absent _ o1 j),
)
