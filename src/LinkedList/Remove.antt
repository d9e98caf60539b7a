-- ===== src/LinkedList/Remove.antt =====
-- LinkedList::remove of a node of a ring.
use asyncflow.Base.{
  ℕ, update, List, some, mem, ◌∷◌, none, false, true, arith, without, Bool-cases, eqb→eq, ◌==◌, inl,
  inr, [], ◌≡◌, refl, mem-without,
}
use asyncflow.LinkedList.{Links, remove, unlink_prev, unlink_next, clear_node, is_in_list}
use mathlib.Core.Path.{subst}
use asyncflow.LinkedList.Chain.{Chain, Distinct, IsRing, frame}
use asyncflow.LinkedList.Insert.{SameOutside, first, next-first}

-- The neighbours of a node of a chain.
pub neighbours :
    (h : Links) (node a : ℕ) (xs : List ℕ) (b : ℕ)
    → Chain h a xs b
    → mem node xs ≡ true
    → (p : ℕ) × (n : ℕ) × (h.prev node ≡ some p)
      × (h.next node ≡ some n)
      × (mem p (a ∷ xs) ≡ true)
      × (mem n (b ∷ xs) ≡ true)
neighbours h node a [] b c i = absurd (ground arith)
neighbours h node a (x ∷ []) b c i =
    (a, b, ground (arith, eqb→eq x node), ground (arith, eqb→eq x node), ground arith, ground arith)
neighbours h node a (x ∷ y ∷ ys) b c i = elim (Bool-cases (x == node)) [
  | inl e ↦ (
    a,
    y,
    ground (arith, eqb→eq x node),
    ground (arith, eqb→eq x node),
    ground arith,
    ground arith,
  )
  | inr e ↦
      let (p, n, hp, hn, ip, in') = neighbours h node x (y ∷ ys) b c.2 (ground arith) in
      (p, n, hp, hn, ground arith, ground arith)
]

next_other :
    (h : Links) (node n a : ℕ) (xs : List ℕ) (b : ℕ)
    → Chain h a xs b
    → Distinct xs
    → mem b xs ≡ false
    → mem node xs ≡ true
    → h.next node ≡ some n
    → (n == node) ≡ false
next_other h node n a [] b c d nb i e = absurd (ground arith)
next_other h node n a (x ∷ []) b c d nb i e = ground (arith, eqb→eq x node, eqb→eq n node)
next_other h node n a (x ∷ y ∷ ys) b c d nb i e = elim (Bool-cases (x == node)) [
  | inl q ↦ ground (arith, eqb→eq x node, eqb→eq n node)
  | inr q ↦ next_other h node n x (y ∷ ys) b c.2 d.1 (ground arith) (ground arith) e
]

-- The pointers after the removal of a node between two others.
bridged : ℕ → ℕ → ℕ → Links → Links
bridged node p n h = record {
  prev = update (update h.prev n (some p)) node none;
  next = update (update h.next p (some n)) node none;
}

remove-bridged :
    (h : Links) (node p n : ℕ)
    → h.prev node ≡ some p
    → h.next node ≡ some n
    → (n == node) ≡ false
    → remove node h ≡ some (bridged node p n h)
unfolding remove unlink_prev unlink_next clear_node bridged
remove-bridged h node p n hp hn ne = ground arith

bridged-Chain_here :
    (h : Links) (node a : ℕ) (xs : List ℕ) (b : ℕ)
    → Chain h a (node ∷ xs) b
    → Distinct (a ∷ node ∷ xs)
    → mem b (node ∷ xs) ≡ false
    → Chain (bridged node a (first xs b) h) a xs b
unfolding bridged
bridged-Chain_here h node a [] b c d nb = ground arith
bridged-Chain_here h node a (x ∷ xs) b c d nb = (
  ground arith,
  ground arith,
  frame h (bridged node a x h) x xs b (λ y i. ground (arith, eqb→eq a y, eqb→eq node y))
      (λ y i. ground (arith, eqb→eq x y, eqb→eq node y)) c.2.2,
)

pub without_absent : (node : ℕ) (xs : List ℕ) → mem node xs ≡ false → without node xs ≡ xs
without_absent node [] out = refl
without_absent node (x ∷ xs) out = ground (arith, without_absent node xs)

-- A node of a chain, with its neighbours.
bridged-Chain_head :
    (h : Links) (node p n a : ℕ) (xs : List ℕ) (b : ℕ)
    → Chain h a (node ∷ xs) b
    → Distinct (a ∷ node ∷ xs)
    → mem b (node ∷ xs) ≡ false
    → p ≡ a
    → n ≡ first xs b
    → without node (node ∷ xs) ≡ xs
    → Chain (bridged node p n h) a (without node (node ∷ xs)) b
bridged-Chain_head h node p n a xs b c d nb pe ne we =
    rw (pe, ne, we) (bridged-Chain_here h node a xs b c d nb)

-- A node that is not the one removed.
bridged-Chain_tail :
    (h : Links) (node p n a x : ℕ) (xs : List ℕ) (b : ℕ)
    → Chain h a (x ∷ xs) b
    → (x == node) ≡ false
    → (a == node) ≡ false
    → (p == a) ≡ false
    → (n == x) ≡ false
    → Chain (bridged node p n h) x (without node xs) b
    → Chain (bridged node p n h) a (without node (x ∷ xs)) b
unfolding bridged
bridged-Chain_tail h node p n a x xs b c e f pa nx rest = rw e (ground arith, ground arith, rest)

bridged-Chain :
    (h : Links) (node p n a : ℕ) (xs : List ℕ) (b : ℕ)
    → Chain h a xs b
    → Distinct (a ∷ xs)
    → mem b xs ≡ false
    → mem node xs ≡ true
    → h.prev node ≡ some p
    → h.next node ≡ some n
    → Chain (bridged node p n h) a (without node xs) b
bridged-Chain h node p n a [] b c d nb i hp hn = absurd (ground arith)
bridged-Chain h node p n a (x ∷ xs) b c d nb i hp hn = elim (Bool-cases (x == node)) [
  | inl e ↦
      subst (λ z. Chain (bridged z p n h) a (without z (x ∷ xs)) b) (eqb→eq x node e)
        (bridged-Chain_head h x p n a xs b c d nb (ground (arith, eqb→eq x node))
          (ground (arith, eqb→eq x node, next-first h x xs b c.2))
          (ground (arith, without_absent x xs d.1.0)))
  | inr e ↦
      let (q, m, hq, hm, iq, im) = neighbours h node x xs b c.2 (ground arith) in
      bridged-Chain_tail h node p n a x xs b c e (ground arith)
        (ground (arith, eqb→eq p a, eqb→eq q a)) (ground (arith, eqb→eq n x, eqb→eq m x))
        (bridged-Chain h node p n x xs b c.2 d.1 (ground arith) (ground arith) hp hn)
]

Distinct-without : (node : ℕ) (xs : List ℕ) → Distinct xs → Distinct (without node xs)
Distinct-without node [] d = tt
Distinct-without node (x ∷ xs) d = elim (Bool-cases (x == node)) [
  | inl e ↦ rw e (Distinct-without node xs d.1)
  | inr e ↦ rw e (ground (arith, mem-without node x xs), Distinct-without node xs d.1)
]

bridged_outside :
    (h : Links) (node p n : ℕ) (ps : List ℕ)
    → mem node ps ≡ true
    → mem p ps ≡ true
    → mem n ps ≡ true
    → SameOutside h (bridged node p n h) ps
unfolding bridged
bridged_outside h node p n ps i j k q out = ground (arith, eqb→eq node q, eqb→eq p q, eqb→eq n q)

-- The node leaves the ring, with null pointers.
pub remove-IsRing :
    (h : Links) (l node : ℕ) (xs : List ℕ)
    → IsRing h l xs
    → mem node xs ≡ true
    → (h' : Links) × (remove node h ≡ some h')
      × IsRing h' l (without node xs)
      × SameOutside h h' (l ∷ xs)
      × (is_in_list node h' ≡ false)
unfolding IsRing is_in_list bridged
remove-IsRing h l node xs r i =
    let (p, n, hp, hn, ip, in') = neighbours h node l xs l r.0 i in
    (
      bridged node p n h,
      remove-bridged h node p n hp hn (next_other h node n l xs l r.0 r.1.1 r.1.0 i hn),
      (
        bridged-Chain h node p n l xs l r.0 r.1 r.1.0 i hp hn,
        (ground (arith, mem-without node l xs), Distinct-without node xs r.1.1),
      ),
      bridged_outside h node p n (l ∷ xs) (ground arith) ip in',
      ground arith,
    )
