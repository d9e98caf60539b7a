-- ===== src/LinkedList/Chain.antt =====
-- Nodes linked in both directions, and rings.
use asyncflow.Base.{ℕ, true, false, ◌≡◌, some, List, [], ◌∷◌, arith, mem}
use asyncflow.LinkedList.{Links}

-- From `a` through the nodes to `b`, and back.
abbrev pub Chain : Links → ℕ → List ℕ → ℕ → Type 0
Chain h a [] b = (h.next a ≡ some b) × (h.prev b ≡ some a)
Chain h a (x ∷ xs) b = (h.next a ≡ some x) × (h.prev x ≡ some a) × Chain h x xs b

abbrev pub Distinct : List ℕ → Type 0
Distinct [] = Unit
Distinct (x ∷ xs) = (mem x xs ≡ false) × Distinct xs

-- The list with the sentinel `l` holds these nodes, in order.
unfoldable pub IsRing : Links → ℕ → List ℕ → Type 0
IsRing h l xs = Chain h l xs l × Distinct (l ∷ xs)

abbrev pub last : ℕ → List ℕ → ℕ
last a [] = a
last a (x ∷ xs) = last x xs

pub mem-last : (a : ℕ) (xs : List ℕ) → mem (last a xs) (a ∷ xs) ≡ true
mem-last a [] = ground arith
mem-last a (x ∷ xs) = ground (arith, mem-last x xs)

pub prev-last :
    (h : Links) (a : ℕ) (xs : List ℕ) (b : ℕ) → Chain h a xs b → h.prev b ≡ some (last a xs)
prev-last h a [] b c = c.1
prev-last h a (x ∷ xs) b c = prev-last h x xs b c.2

-- A chain stands if the pointers of its nodes do.
pub frame :
    (h h' : Links) (a : ℕ) (xs : List ℕ) (b : ℕ)
    → ((x : ℕ) → mem x (a ∷ xs) ≡ true → h'.next x ≡ h.next x)
    → ((x : ℕ) → mem x (b ∷ xs) ≡ true → h'.prev x ≡ h.prev x)
    → Chain h a xs b
    → Chain h' a xs b
frame h h' a [] b n p c = ground (arith, n a, p b)
frame h h' a (x ∷ xs) b n p c = (
  ground (arith, n a),
  ground (arith, p x),
  frame h h' x xs b (λ y m. n y (ground arith)) (λ y m. p y (ground arith)) c.2,
)
