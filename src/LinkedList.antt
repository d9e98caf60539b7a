-- ===== src/LinkedList.antt =====
-- LinkedNode and LinkedList (include/util/list.h): rings of nodes through a sentinel. A pointer is a
-- number, a null pointer `none`. A read or write through a null pointer is undefined, and an
-- operation that makes one returns `none`.
use asyncflow.Base.{
  ℕ, zero, suc, ◌+◌, Bool, true, false, Option, none, some, update, ◌==◌, if◌then◌else◌,
}
pub mod Chain
pub mod Insert
pub mod Remove
pub mod Refines
pub mod Loops

-- The fields of each LinkedNode.
pub record Links : Type 0 where
  pub prev : ℕ → Option ℕ
  pub next : ℕ → Option ℕ

-- The constructor of LinkedNode, of the node at a pointer.
unfoldable pub new_node : ℕ → Links → Links
new_node p h = record { prev = update h.prev p none; next = update h.next p none }

-- LinkedList::init, of a sentinel that was allocated.
unfoldable pub init : ℕ → Links → Links
init l h = record { prev = update h.prev l (some l); next = update h.next l (some l) }

-- LinkedList::insert, between two nodes.
unfoldable pub link : ℕ → ℕ → ℕ → Links → Links
link node p n h = record {
  prev = update (update h.prev n (some node)) node (some p);
  next = update (update h.next node (some n)) p (some node);
}

unfoldable pub insert : ℕ → Option ℕ → Option ℕ → Links → Option Links
insert node (some p) (some n) h = some (link node p n h)
insert node _ _ h = none

unfoldable pub push_front : ℕ → ℕ → Links → Option Links
push_front l node h = insert node (some l) (h.next l) h

unfoldable pub push_back : ℕ → ℕ → Links → Option Links
push_back l node h = insert node (h.prev l) (some l) h

unfoldable pub is_at : ℕ → Option ℕ → Bool
is_at p none = false
is_at p (some q) = q == p

unfoldable pub empty : ℕ → Links → Bool
empty l h = is_at l (h.next l)

-- LinkedList::remove, between two nodes; the second write reads the pointers again.
unfoldable pub unlink_prev : ℕ → ℕ → Links → Links
unlink_prev node n h = record h { prev = update h.prev n (h.prev node) }

unfoldable pub unlink_next : ℕ → Option ℕ → Links → Option Links
unlink_next node none h = none
unlink_next node (some p) h = some (record h { next = update h.next p (h.next node) })

unfoldable pub clear_node : ℕ → Links → Links
clear_node node h = record { prev = update h.prev node none; next = update h.next node none }

unfoldable pub remove : ℕ → Links → Option Links
remove node h = elim (h.next node) [
  | none ↦ none
  | some n ↦
      let h1 = unlink_prev node n h in
      elim (unlink_next node (h1.prev node) h1) [
        | none ↦ none
        | some h2 ↦ some (clear_node node h2)
      ]
]

unfoldable pub is_in_list : ℕ → Links → Bool
is_in_list node h = elim (h.next node) [
  | none ↦ false
  | some _ ↦ elim (h.prev node) [ none ↦ false | some _ ↦ true ]
]

unfoldable pub remove_safe : ℕ → Links → Option Links
remove_safe node h = if is_in_list node h then remove node h else some h

unfoldable pub front : ℕ → Links → Option ℕ
front l h = if empty l h then none else h.next l

unfoldable pub back : ℕ → Links → Option ℕ
back l h = if empty l h then none else h.prev l

-- The result of a pop is null if the list is empty.
unfoldable pub pop_at : Option ℕ → Links → Option (Links × Option ℕ)
pop_at none h = some (h, none)
pop_at (some p) h = elim (remove p h) [ none ↦ none | some h' ↦ some (h', some p) ]

unfoldable pub pop_front : ℕ → Links → Option (Links × Option ℕ)
pop_front l h = pop_at (front l h) h

unfoldable pub pop_back : ℕ → Links → Option (Links × Option ℕ)
pop_back l h = pop_at (back l h) h

-- The loops from `cur` to the sentinel; `none` if they meet a null pointer, or run out of fuel.
unfoldable pub size_from : ℕ → ℕ → Option ℕ → Links → Option ℕ
size_from k l none h = none
size_from zero l (some cur) h = if cur == l then some 0 else none
size_from (suc k) l (some cur) h =
    let rest = size_from k l (h.next cur) h in
    if cur == l then some 0 else elim rest [ none ↦ none | some n ↦ some (suc n) ]

unfoldable pub size : ℕ → ℕ → Links → Option ℕ
size k l h = size_from k l (h.next l) h

unfoldable pub clear_from : ℕ → ℕ → Option ℕ → Links → Option Links
clear_from k l none h = none
clear_from zero l (some cur) h = if cur == l then some h else none
clear_from (suc k) l (some cur) h =
    let rest = clear_from k l (h.next cur) (clear_node cur h) in if cur == l then some h else rest

unfoldable pub clear : ℕ → ℕ → Links → Option Links
clear k l h = clear_from k l (h.next l) h
