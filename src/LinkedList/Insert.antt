-- ===== src/LinkedList/Insert.antt =====
-- LinkedList::insert at the two ends of a ring.
use asyncflow.Base.{
  ℕ, false, ◌≡◌, List, [], ◌∷◌, ◌++◌, arith, mem, ◌==◌, eqb→eq, true, some, mem-append, refl,
}
use asyncflow.LinkedList.{insert, Links, link, push_back, push_front}
use asyncflow.LinkedList.Chain.{Chain, Distinct, last, mem-last, IsRing, frame, prev-last}

-- A node after the last of a chain.
link-Chain_end :
    (h : Links) (node a : ℕ) (xs : List ℕ) (l : ℕ)
    → Chain h a xs l
    → Distinct (a ∷ xs)
    → mem l xs ≡ false
    → mem node (a ∷ xs) ≡ false
    → (node == l) ≡ false
    → Chain (link node (last a xs) l h) a (xs ++ node ∷ []) l
unfolding link
link-Chain_end h node a [] l c d nl nn ne = ground arith
link-Chain_end h node a (x ∷ xs) l c d nl nn ne = (
  ground (arith, mem-last x xs, eqb→eq (last x xs) a),
  ground arith,
  link-Chain_end h node x xs l c.2 d.1 (ground arith) (ground arith) ne,
)

Distinct-append :
    (xs : List ℕ) (node : ℕ) → Distinct xs → mem node xs ≡ false → Distinct (xs ++ node ∷ [])
Distinct-append [] node d out = (refl, tt)
Distinct-append (x ∷ xs) node d out =
    (ground (arith, mem-append x xs (node ∷ [])), Distinct-append xs node d.1 (ground arith))

-- No node but those listed has another pointer.
abbrev pub SameOutside : Links → Links → List ℕ → Type 0
SameOutside h h' ps = (p : ℕ) → mem p ps ≡ false → (h'.next p ≡ h.next p) × (h'.prev p ≡ h.prev p)

-- A ring without the nodes that changed.
abbrev pub Apart : List ℕ → List ℕ → Type 0
Apart xs ys = (p : ℕ) → mem p xs ≡ true → mem p ys ≡ false

pub IsRing-outside :
    (h h' : Links) (ps : List ℕ) (m : ℕ) (ys : List ℕ)
    → SameOutside h h' ps
    → Apart (m ∷ ys) ps
    → IsRing h m ys
    → IsRing h' m ys
unfolding IsRing
IsRing-outside h h' ps m ys same apart r =
    (frame h h' m ys m (λ x i. (same x (apart x i)).0) (λ x i. (same x (apart x i)).1) r.0, r.1)

link_outside :
    (h : Links) (node p n : ℕ) (ps : List ℕ)
    → mem node ps ≡ true
    → mem p ps ≡ true
    → mem n ps ≡ true
    → SameOutside h (link node p n h) ps
unfolding link
link_outside h node p n ps i j k q out = ground (arith, eqb→eq node q, eqb→eq p q, eqb→eq n q)

pub push_back-IsRing :
    (h : Links) (l node : ℕ) (xs : List ℕ)
    → IsRing h l xs
    → mem node (l ∷ xs) ≡ false
    → (h' : Links) × (push_back l node h ≡ some h')
      × IsRing h' l (xs ++ node ∷ [])
      × SameOutside h h' (node ∷ l ∷ xs)
unfolding IsRing push_back insert
push_back-IsRing h l node xs r out = (
  link node (last l xs) l h,
  rw (prev-last h l xs l r.0) refl,
  (
    link-Chain_end h node l xs l r.0 r.1 (ground arith) out (ground arith),
    Distinct-append (l ∷ xs) node r.1 out,
  ),
  link_outside h node (last l xs) l (node ∷ l ∷ xs) (ground arith) (ground (arith, mem-last l xs))
      (ground arith),
)

abbrev pub first : List ℕ → ℕ → ℕ
first [] b = b
first (x ∷ xs) b = x

pub next-first :
    (h : Links) (a : ℕ) (xs : List ℕ) (b : ℕ) → Chain h a xs b → h.next a ≡ some (first xs b)
next-first h a [] b c = c.0
next-first h a (x ∷ xs) b c = c.0

pub mem-first : (xs : List ℕ) (b : ℕ) → mem (first xs b) (b ∷ xs) ≡ true
mem-first [] b = ground arith
mem-first (x ∷ xs) b = ground arith

link-Chain_start :
    (h : Links) (node l : ℕ) (xs : List ℕ)
    → Chain h l xs l
    → Distinct (l ∷ xs)
    → mem node (l ∷ xs) ≡ false
    → Chain (link node l (first xs l) h) l (node ∷ xs) l
unfolding link
link-Chain_start h node l [] c d out = ground arith
link-Chain_start h node l (x ∷ xs) c d out = (
  ground arith,
  ground arith,
  (
    ground arith,
    ground arith,
    frame h (link node l x h) x xs l (λ y i. ground (arith, eqb→eq x y))
        (λ y i. ground (arith, eqb→eq l y)) c.2,
  ),
)

pub push_front-IsRing :
    (h : Links) (l node : ℕ) (xs : List ℕ)
    → IsRing h l xs
    → mem node (l ∷ xs) ≡ false
    → (h' : Links) × (push_front l node h ≡ some h')
      × IsRing h' l (node ∷ xs)
      × SameOutside h h' (node ∷ l ∷ xs)
unfolding IsRing push_front insert
push_front-IsRing h l node xs r out = (
  link node l (first xs l) h,
  rw (next-first h l xs l r.0) refl,
  (link-Chain_start h node l xs r.0 r.1 out, ground arith),
  link_outside h node l (first xs l) (node ∷ l ∷ xs) (ground arith) (ground arith)
      (ground (arith, mem-first xs l)),
)
