-- ===== src/LinkedList/Loops.antt =====
-- The loops of LinkedList::size and clear, and a new list.
use asyncflow.LinkedList.Insert.{next-first, first}
use asyncflow.LinkedList.Chain.{IsRing, Chain, Distinct, frame}
use asyncflow.LinkedList.{size_from, clear_from, size, Links, clear_node, init, clear}
use asyncflow.Base.{
  ◌≤◌, ◌≡◌, ◌∷◌, ◌==◌, if◌then◌else◌, some, arith, List, zero, none, false, mem, ℕ, suc, [], length,
  eqb→eq,
}

size_from-Chain :
    (k : ℕ) (h : Links) (a : ℕ) (xs : List ℕ) (l : ℕ)
    → Chain h a xs l
    → mem l xs ≡ false
    → length xs ≤ k
    → size_from k l (h.next a) h ≡ some (length xs)
unfolding size_from
size_from-Chain zero h a [] l c nl le = rw c.0 (ground (arith, size_from))
size_from-Chain (suc k) h a [] l c nl le = rw c.0 (ground (arith, size_from))
size_from-Chain zero h a (x ∷ xs) l c nl le = absurd (ground arith)
size_from-Chain (suc k) h a (x ∷ xs) l c nl le =
    rw c.0 (ground (arith, size_from, size_from-Chain k h x xs l c.2 (ground arith) (ground arith)))

-- The nodes cleared one after the other.
abbrev pub cleared : List ℕ → Links → Links
cleared [] h = h
cleared (x ∷ xs) h = cleared xs (clear_node x h)

-- A chain from the first of the nodes on.
abbrev pub Tail : Links → List ℕ → ℕ → Type 0
Tail h [] l = Unit
Tail h (x ∷ xs) l = Chain h x xs l

Tail-clear_node :
    (h : Links) (x : ℕ) (xs : List ℕ) (l : ℕ)
    → Chain h x xs l
    → Distinct (x ∷ xs)
    → (x == l) ≡ false
    → Tail (clear_node x h) xs l
unfolding clear_node
Tail-clear_node h x [] l c d ne = tt
Tail-clear_node h x (y ∷ ys) l c d ne =
    frame h (clear_node x h) y ys l (λ z i. ground (arith, eqb→eq x z))
      (λ z i. ground (arith, eqb→eq x z)) c.2

Tail-Chain : (h : Links) (a : ℕ) (xs : List ℕ) (l : ℕ) → Chain h a xs l → Tail h xs l
Tail-Chain h a [] l c = tt
Tail-Chain h a (x ∷ xs) l c = c.2

clear_from-Chain :
    (k : ℕ) (h : Links) (xs : List ℕ) (l : ℕ)
    → Tail h xs l
    → Distinct xs
    → mem l xs ≡ false
    → length xs ≤ k
    → clear_from k l (some (first xs l)) h ≡ some (cleared xs h)
unfolding clear_from
clear_from-Chain zero h [] l c d nl le = ground arith
clear_from-Chain (suc k) h [] l c d nl le = ground arith
clear_from-Chain zero h (x ∷ xs) l c d nl le = absurd (ground arith)
clear_from-Chain (suc k) h (x ∷ xs) l c d nl le =
    rw (next-first h x xs l c, clear_from)
      (ground (
        arith,
        clear_from-Chain k (clear_node x h) xs l (Tail-clear_node h x xs l c d (ground arith)) d.1
            (ground arith) (ground arith),
      ))

cleared-next :
    (xs : List ℕ) (h : Links) (p : ℕ)
    → (cleared xs h).next p ≡ (if mem p xs then none else h.next p)
unfolding clear_node
cleared-next [] h p = ground arith
cleared-next (x ∷ xs) h p = ground (arith, cleared-next xs (clear_node x h) p)

cleared-prev :
    (xs : List ℕ) (h : Links) (p : ℕ)
    → (cleared xs h).prev p ≡ (if mem p xs then none else h.prev p)
unfolding clear_node
cleared-prev [] h p = ground arith
cleared-prev (x ∷ xs) h p = ground (arith, cleared-prev xs (clear_node x h) p)

-- On a ring that holds the nodes xs, the loops of size and clear end within as many steps as there
-- are nodes: size is the number of nodes, and after clear each node of the list has null pointers
-- and every other node the pointers it had.
pub size-clear_terminate :
    (k l : ℕ) (h : Links) (xs : List ℕ)
    → IsRing h l xs
    → length xs ≤ k
    → (size k l h ≡ some (length xs))
      × ((h' : Links) × (clear k l h ≡ some h')
          × ((p : ℕ)
              → (h'.next p ≡ (if mem p xs then none else h.next p))
                × (h'.prev p ≡ (if mem p xs then none else h.prev p))))
unfolding size clear IsRing
size-clear_terminate k l h xs r le = (
  size_from-Chain k h l xs l r.0 r.1.0 le,
  (
    cleared xs h,
    rw (next-first h l xs l r.0)
        (clear_from-Chain k h xs l (Tail-Chain h l xs l r.0) r.1.1 r.1.0 le),
    λ p. (cleared-next xs h p, cleared-prev xs h p),
  ),
)

pub init-IsRing : (l : ℕ) (h : Links) → IsRing (init l h) l []
unfolding init IsRing
init-IsRing l h = ground arith
