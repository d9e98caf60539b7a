-- ===== src/Engine/Reach/Search.antt =====
-- The loop of the search of StopFlow (src/core/manager.cpp) and the chains of connectors.
use asyncflow.Base.{
  ℕ, zero, suc, ◌+◌, ◌≤◌, ◌<◌, true, false, ◌||◌, ◌≡◌, refl, inl, inr, some, List, [], ◌∷◌, ◌++◌,
  arith, ◌==◌, if◌then◌else◌, ltb, mem, mem-append, length, length-append, Bool-cases,
}
use asyncflow.Engine.Reach.Defs.{set_insert, drain_queue, connectors}

pub mem-set_insert : (a b : ℕ) (xs : List ℕ) → mem a (set_insert b xs) ≡ ((b == a) || mem a xs)
unfolding set_insert
mem-set_insert a b [] = refl
mem-set_insert a b (x ∷ xs) = ground (arith, mem-set_insert a b xs)

module _ (on_success on_fail : ℕ → List ℕ) where
  -- The children of a node on either result.
  abbrev pub successors : ℕ → List ℕ
  successors x = on_success x ++ on_fail x

  -- A chain of connectors.
  pub data Reaches (a : ℕ) : ℕ → Type 0 where
    here : Reaches a a
    next : {x y : ℕ} → Reaches a x → mem y (successors x) ≡ true → Reaches a y

  -- The node at some index of the arguments, in range, leads to `x`.
  abbrev pub Flows : (ℕ → ℕ) → ℕ → List ℕ → ℕ → Type 0
  Flows id_of max_id args x = (a : ℕ) × (mem a args ≡ true) × (a < max_id) × Reaches (id_of a) x

  -- The connectors that leave the nodes not found yet.
  pub weight : ℕ → List ℕ → ℕ
  weight zero found = 0
  weight (suc n) found =
      weight n found + (if mem n found then 0 else length (on_success n) + length (on_fail n))

  pub weight-le-connectors :
      (n : ℕ) (found : List ℕ) → weight n found ≤ connectors on_success on_fail n
  unfolding weight connectors
  weight-le-connectors zero found = omega arith
  weight-le-connectors (suc n) found = ground (arith, weight-le-connectors n found)

  weight-set_insert :
      (n h : ℕ) (found : List ℕ)
      → mem h found ≡ false
      → weight n (set_insert h found)
          + (if ltb h n then length (on_success h) + length (on_fail h) else 0)
        ≡ weight n found
  unfolding weight
  weight-set_insert zero h found e = ground arith
  weight-set_insert (suc n) h found e =
      ground (arith, weight-set_insert n h found e, mem-set_insert n h found)

  module _ (n : ℕ) (ends : (x : ℕ) → n ≤ x → successors x ≡ []) where
    weight_drop :
        (h : ℕ) (found : List ℕ)
        → mem h found ≡ false
        → length (successors h) + weight n (set_insert h found) ≡ weight n found
    weight_drop h found e = elim (Bool-cases (ltb h n)) [
      | inl low ↦
          ground (arith, weight-set_insert n h found e, length-append (on_success h) (on_fail h))
      | inr high ↦ ground (arith, weight-set_insert n h found e, ends h)
    ]

    pub drain_queue-total :
        (fuel : ℕ) (queue found : List ℕ)
        → length queue + weight n found ≤ fuel
        → (r : List ℕ) × (drain_queue on_success on_fail fuel queue found ≡ some r)
    unfolding drain_queue
    drain_queue-total zero [] found le = (found, refl)
    drain_queue-total (suc fuel) [] found le = (found, refl)
    drain_queue-total zero (h ∷ queue) found le = absurd (omega arith)
    drain_queue-total (suc fuel) (h ∷ queue) found le = elim (Bool-cases (mem h found)) [
      | inl e ↦ rw (e, drain_queue) (drain_queue-total fuel queue found (omega arith))
      | inr e ↦
          rw (e, drain_queue)
            (drain_queue-total fuel ((queue ++ on_success h) ++ on_fail h) (set_insert h found) (
              omega (
                arith,
                weight_drop h found e,
                length-append queue (on_success h),
                length-append (queue ++ on_success h) (on_fail h),
                length-append (on_success h) (on_fail h),
              )))
    ]

  -- What the queue and the children of a node add.
  pub mem-extended :
      (x h : ℕ) (queue : List ℕ)
      → mem x ((queue ++ on_success h) ++ on_fail h) ≡ (mem x queue || mem x (successors h))
  mem-extended x h queue = ground (
    arith,
    mem-append x (queue ++ on_success h) (on_fail h),
    mem-append x queue (on_success h),
    mem-append x (on_success h) (on_fail h),
  )

  -- A set that the search starts from: its children are in it, or in the queue.
  abbrev pub IsFrontier : List ℕ → List ℕ → Type 0
  IsFrontier found queue =
      (x y : ℕ)
      → mem x found ≡ true
      → mem y (successors x) ≡ true
      → (mem y found || mem y queue) ≡ true

  -- Only what the start leads to is found.
  pub drain_queue-sound :
      (R : ℕ → Type 0) (closed : (x y : ℕ) → R x → mem y (successors x) ≡ true → R y) (fuel : ℕ)
      (queue found r : List ℕ)
      → drain_queue on_success on_fail fuel queue found ≡ some r
      → ((x : ℕ) → mem x queue ≡ true → R x)
      → ((x : ℕ) → mem x found ≡ true → R x)
      → (x : ℕ) → mem x r ≡ true
      → R x
  unfolding drain_queue
  drain_queue-sound R closed zero [] found r e hq hf x m = hf x (ground arith)
  drain_queue-sound R closed (suc fuel) [] found r e hq hf x m = hf x (ground arith)
  drain_queue-sound R closed zero (h ∷ queue) found r e hq hf x m = absurd (ground arith)
  drain_queue-sound R closed (suc fuel) (h ∷ queue) found r e hq hf x m =
      elim (Bool-cases (mem h found)) [
        | inl old ↦
            drain_queue-sound R closed fuel queue found r (rw (old, drain_queue) at e)
              (λ y q. hq y (ground arith)) hf x m
        | inr new ↦
            drain_queue-sound R closed fuel ((queue ++ on_success h) ++ on_fail h)
              (set_insert h found) r (rw (new, drain_queue) at e)
              (λ y q. elim (Bool-cases (mem y queue)) [
                | inl i ↦ hq y (ground arith)
                | inr o ↦ closed h y (hq h (ground arith)) (ground (arith, mem-extended y h queue))
              ])
              (λ y f. elim (Bool-cases (mem y found)) [
                | inl i ↦ hf y i
                | inr o ↦ hq y (ground (arith, mem-set_insert y h found))
              ])
              x m
      ]

  -- The result holds what was found, the queue, and the children of all it holds.
  pub drain_queue_complete :
      (fuel : ℕ) (queue found r : List ℕ)
      → drain_queue on_success on_fail fuel queue found ≡ some r
      → IsFrontier found queue
      → ((x : ℕ) → (mem x found || mem x queue) ≡ true → mem x r ≡ true) × IsFrontier r []
  unfolding drain_queue
  drain_queue_complete zero [] found r e open' =
      (λ x m. ground arith, λ x y m c. ground (arith, open' x y))
  drain_queue_complete (suc fuel) [] found r e open' =
      (λ x m. ground arith, λ x y m c. ground (arith, open' x y))
  drain_queue_complete zero (h ∷ queue) found r e open' = absurd (ground arith)
  drain_queue_complete (suc fuel) (h ∷ queue) found r e open' = elim (Bool-cases (mem h found)) [
    | inl old ↦
        let rest =
          drain_queue_complete fuel queue found r (rw (old, drain_queue) at e)
            (λ x y m c. ground (arith, open' x y)) in
        (λ x m. ground (arith, rest.0 x), rest.1)
    | inr new ↦
        let rest =
          drain_queue_complete fuel ((queue ++ on_success h) ++ on_fail h) (set_insert h found) r
            (rw (new, drain_queue) at e)
            (λ x y m c. ground (
              arith,
              open' x y,
              mem-set_insert x h found,
              mem-set_insert y h found,
              mem-extended y h queue,
            )) in
        (λ x m. ground (arith, rest.0 x, mem-set_insert x h found, mem-extended x h queue), rest.1)
  ]
