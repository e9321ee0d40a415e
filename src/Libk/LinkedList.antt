-- ===== src/Libk/LinkedList.antt =====
-- kernel/libk/list.c: the doubly linked list, over an explicit store of its nodes.
-- A `struct list` lives outside the store, so a function that updates one returns the new value.
-- The result `none` is an access through a pointer that holds no node.
pub mod Chain
pub mod Append
pub mod Remove
mod Tests
use pi_os.Common.{ℕ, Bool, Option, none, some, ◌==◌, if◌then◌else◌}

abbrev pub Ptr : Type 0
Ptr = ℕ

abbrev pub null : Ptr
null = 0

-- `struct list_node`; `val` is a pointer too, and is only moved.
pub record ListNode : Type 0 where
  pub next : Ptr
  pub prev : Ptr
  pub val : ℕ

abbrev pub Store : Type 0
Store = Ptr → Option ListNode

-- `struct list`
pub record ListHead : Type 0 where
  pub first : Ptr
  pub last : Ptr

unfoldable pub write : Store → Ptr → Option ListNode → Store
write h p c a = if a == p then c else h a

abbrev pub bind {ℓ} :
    {A : Type ℓ} → Option A → (A → Option (Store × ListHead)) → Option (Store × ListHead)
bind none k = none
bind (some a) k = k a

pub list_init : ListHead
list_init = record { first = null; last = null }

-- `fresh` is what `kmalloc` returns.
pub list_append : (fresh : Ptr) → Store → ListHead → ℕ → Option (Store × ListHead)
list_append fresh h list val =
    let h' = write h fresh (some (record { next = null; prev = list.last; val = val })) in
    if list.first == null
    then some (h', record { first = fresh; last = fresh })
    else bind (h' list.last) (λ tail.
      some (write h' list.last (some (record tail { next = fresh })), record list { last = fresh }))

-- `list_node->next->prev = …` or `list->last = …`
unlink_next : Store → ListHead → ListNode → Option (Store × ListHead)
unlink_next h list node =
    if node.next == null
    then some (h, record list { last = node.prev })
    else bind (h node.next)
        (λ succ. some (write h node.next (some (record succ { prev = node.prev })), list))

-- `list_node->prev->next = …` or `list->first = …`, the node read again
unlink_prev : Ptr → Store × ListHead → Option (Store × ListHead)
unlink_prev p (h, list) = bind (h p) (λ node.
    if node.prev == null
    then some (h, record list { first = node.next })
    else bind (h node.prev)
        (λ before. some (write h node.prev (some (record before { next = node.next })), list)))

-- `kfree(list_node)`
release_node : Ptr → Store × ListHead → Option (Store × ListHead)
release_node p (h, list) = some (write h p none, list)

pub list_remove : Store → ListHead → Ptr → Option (Store × ListHead)
unfolding unlink_next unlink_prev release_node
list_remove h list p =
    bind (bind (bind (h p) (unlink_next h list)) (unlink_prev p)) (release_node p)
