-- ===== src/Libk/LinkedList/Chain.antt =====
-- What a list in the store stands for, and `list_append`.
use pi_os.Common.{
  ℕ, ◌≡◌, ◌≢◌, refl, Bool, true, false, ◌||◌, Option, some, List, [], ◌∷◌, ◌++◌, arith, ◌==◌,
}
use pi_os.Libk.LinkedList.{Ptr, null, ListNode, Store, ListHead, write}

-- The nodes of a list in order: address and value.
abbrev pub Cells : Type 0
Cells = List (Ptr × ℕ)

abbrev pub contains : Ptr → Cells → Bool
contains q [] = false
contains q ((r, _) ∷ rest) = (q == r) || contains q rest

abbrev pub first_of : Cells → Ptr → Ptr
first_of [] p = p
first_of ((q, _) ∷ _) p = q

abbrev pub last_of : Ptr → Cells → Ptr
last_of p [] = p
last_of p ((q, _) ∷ xs) = last_of q xs

abbrev pub list_node : Ptr → Ptr → ℕ → Option ListNode
list_node next prev val = some (record { next = next; prev = prev; val = val })

-- The distinct nodes `xs` are linked both ways; `prev` precedes them and `next` follows them.
abbrev pub Linked : Store → (prev next : Ptr) → Cells → Type 0
Linked h prev next [] = Unit {0}
Linked h prev next ((p, v) ∷ xs) =
    (p ≢ null)
    × (h p ≡ list_node (first_of xs next) prev v)
    × (contains p xs ≡ false)
    × Linked h p next xs

pub record IsList (h : Store) (list : ListHead) (xs : Cells) : Type 0 where
  pub linked : Linked h null null xs
  pub at_first : list.first ≡ first_of xs null
  pub at_last : list.last ≡ last_of null xs

pub write_self : (h : Store) (p : Ptr) (c : Option ListNode) → write h p c p ≡ c
unfolding write
write_self h p c = ground arith

pub write_ne : (h : Store) (p : Ptr) (c : Option ListNode) (a : Ptr) → a ≢ p → write h p c a ≡ h a
unfolding write
write_ne h p c a ne = ground arith

pub contains-last_of : (p v : ℕ) (xs : Cells) → contains (last_of p xs) ((p, v) ∷ xs) ≡ true
contains-last_of p v [] = ground arith
contains-last_of p v ((q, w) ∷ xs) = ground (arith, contains-last_of q w xs)

pub last_of-ne_null :
    (h : Store) (prev next p v : ℕ) (xs : Cells)
    → Linked h prev next ((p, v) ∷ xs)
    → last_of p xs ≢ null
last_of-ne_null h prev next p v [] l = l.0
last_of-ne_null h prev next p v ((q, w) ∷ xs) l = last_of-ne_null h p next q w xs l.3

first_of-snoc : (xs : Cells) (f w n m : ℕ) → first_of (xs ++ ((f, w) ∷ [])) n ≡ first_of xs f
first_of-snoc [] f w n m = refl
first_of-snoc ((q, v) ∷ xs) f w n m = refl

pub contains-append :
    (a : Ptr) (xs ys : Cells) → contains a (xs ++ ys) ≡ (contains a xs || contains a ys)
contains-append a [] ys = refl
contains-append a ((p, _) ∷ xs) ys = ground (arith, contains-append a xs ys)

pub last_of-append : (p : Ptr) (xs ys : Cells) → last_of p (xs ++ ys) ≡ last_of (last_of p xs) ys
last_of-append p [] ys = refl
last_of-append p ((q, _) ∷ xs) ys = last_of-append q xs ys

-- Linked nodes stay linked in a store that agrees on them.
pub Linked-frame :
    (h g : Store) (prev next : Ptr) (xs : Cells)
    → Linked h prev next xs
    → ((a : Ptr) → contains a xs ≡ true → g a ≡ h a)
    → Linked g prev next xs
Linked-frame h g prev next [] l same = tt
Linked-frame h g prev next ((p, v) ∷ xs) (n, at, out, l) same =
    (n, ground (arith, same p), out, Linked-frame h g p next xs l (λ a i. same a (ground arith)))

-- The last node's `next` may be turned to another node.
pub Linked-relink_next :
    (h g : Store) (prev next next' : Ptr) (xs : Cells)
    → Linked h prev next xs
    → ((p : Ptr) (n : ListNode)
        → contains p xs ≡ true
        → p ≡ last_of prev xs
        → h p ≡ some n
        → g p ≡ some (record n { next = next' }))
    → ((a : Ptr) → contains a xs ≡ true → a ≢ last_of prev xs → g a ≡ h a)
    → Linked g prev next' xs
Linked-relink_next h g prev next next' [] l turned same = tt
Linked-relink_next h g prev next next' ((p, v) ∷ []) (n, at, out, l) turned same =
    (n, turned p _ (ground arith) refl at, refl, tt)
Linked-relink_next h g prev next next' ((p, v) ∷ (q, w) ∷ xs) (n, at, out, l) turned same =
    let ne : p ≢ last_of q xs = λ e. ground (arith, contains-last_of q w xs) in
    (
      n,
      ground (arith, same p, ne),
      out,
      Linked-relink_next h g p next next' ((q, w) ∷ xs) l (λ a m i. turned a m (ground arith))
          (λ a i m. same a (ground arith) m),
    )

-- Two runs of nodes that share none are linked when each leads to the other.
pub Linked-append :
    (h : Store) (prev next : Ptr) (xs ys : Cells)
    → Linked h prev (first_of ys next) xs
    → Linked h (last_of prev xs) next ys
    → ((a : Ptr) → contains a xs ≡ true → contains a ys ≡ false)
    → Linked h prev next (xs ++ ys)
Linked-append h prev next [] ys l m apart = m
Linked-append h prev next ((p, v) ∷ []) ys (n, at, out, l) m apart =
    (n, at, apart p (ground arith), m)
Linked-append h prev next ((p, v) ∷ (q, w) ∷ xs) ys (n, at, out, l) m apart = (
  n,
  at,
  ground (arith, contains-append p ((q, w) ∷ xs) ys, apart p),
  Linked-append h p next ((q, w) ∷ xs) ys l m (λ a i. apart a (ground arith)),
)
