-- ===== src/Engine/Reach/Flow.antt =====
-- The whole search of Manager::StopFlow (src/core/manager.cpp), over its arguments.
use asyncflow.Base.{
  ℕ, suc, ◌≤◌, ◌<◌, true, ◌≡◌, refl, ◌⊎◌, inl, inr, ◌↔◌, some, List, [], ◌∷◌, arith, ◌==◌, leb, mem,
  Bool-cases, lt_of_not_leb, eqb→eq,
}
use mathlib.Core.Path.{subst}
use asyncflow.Engine.Reach.Defs.{drain_queue, connectors, flow_ids}
use asyncflow.Engine.Reach.Search.{
  successors, Reaches, here, next, Flows, IsFrontier, weight-le-connectors, drain_queue-total,
  drain_queue-sound, drain_queue_complete,
}

module _ (on_success on_fail : ℕ → List ℕ) (n : ℕ)
    (ends : (x : ℕ) → n ≤ x → successors on_success on_fail x ≡ []) where
  -- A set that is closed under connectors.
  abbrev IsClosed : List ℕ → Type 0
  IsClosed found = IsFrontier on_success on_fail found []

  -- The search of one argument, from a closed set.
  search_one :
      (a : ℕ) (found : List ℕ)
      → IsClosed found
      → (r : List ℕ) × (drain_queue on_success on_fail
            (suc (connectors on_success on_fail n))
            (a ∷ [])
            found
          ≡ some r)
        × IsClosed r
        × ((x : ℕ) → mem x found ≡ true → mem x r ≡ true)
        × (mem a r ≡ true)
        × ((x : ℕ) → mem x r ≡ true → (mem x found ≡ true) ⊎ Reaches on_success on_fail a x)
  search_one a found closed =
      let total =
        drain_queue-total on_success on_fail n ends (suc (connectors on_success on_fail n)) (a ∷ [])
          found (omega (arith, weight-le-connectors on_success on_fail n found)) in
      let complete =
        drain_queue_complete on_success on_fail (suc (connectors on_success on_fail n)) (a ∷ [])
          found total.0 total.1 (λ x y m c. ground (arith, closed x y)) in
      (
        total.0,
        total.1,
        complete.1,
        λ x m. complete.0 x (ground arith),
        complete.0 a (ground arith),
        drain_queue-sound on_success on_fail
            (λ x. (mem x found ≡ true) ⊎ Reaches on_success on_fail a x)
            (λ x y rx c. elim rx [
              | inl m ↦ inl (ground (arith, closed x y))
              | inr reach ↦ inr (next reach c)
            ])
            (suc (connectors on_success on_fail n)) (a ∷ []) found total.0 total.1
            (λ x m. let e : x ≡ a = ground arith in rw e (inr here)) (λ x m. inl m),
      )

  -- The outcome of the loop over the arguments, from a closed set.
  abbrev Found : (ℕ → ℕ) → List ℕ → List ℕ → List ℕ → Type 0
  Found id_of args found r =
      (flow_ids on_success on_fail id_of n args found ≡ some r)
      × IsClosed r
      × ((x : ℕ) → mem x found ≡ true → mem x r ≡ true)
      × ((a : ℕ) → mem a args ≡ true → a < n → mem (id_of a) r ≡ true)
      × ((x : ℕ) → mem x r ≡ true → (mem x found ≡ true) ⊎ Flows on_success on_fail id_of n args x)

  flow_ids-Found :
      (id_of : ℕ → ℕ) (args found : List ℕ)
      → IsClosed found
      → (r : List ℕ) × Found id_of args found r
  unfolding flow_ids
  flow_ids-Found id_of [] found closed =
      (found, (refl, closed, λ x m. m, λ a m. ground arith, λ x m. inl m))
  flow_ids-Found id_of (id ∷ args) found closed = elim (Bool-cases (leb n id)) [
    | inl high ↦
        let (r, rest) = flow_ids-Found id_of args found closed in
        (
          r,
          (
            rw (high, flow_ids) rest.0,
            rest.1,
            rest.2,
            λ a m low. rest.3 a (ground arith) low,
            λ x m. elim (rest.4 x m) [
              | inl f ↦ inl f
              | inr flow ↦ inr (flow.0, ground (arith, flow.1), flow.2, flow.3)
            ],
          ),
        )
    | inr low ↦
        let one = search_one (id_of id) found closed in
        let (r, rest) = flow_ids-Found id_of args one.0 one.2 in
        (
          r,
          (
            rw (low, one.1, flow_ids) rest.0,
            rest.1,
            λ x m. rest.2 x (one.3 x m),
            λ a m small. elim (Bool-cases (id == a)) [
              | inl e ↦
                  subst (λ b. mem (id_of b) r ≡ true) (eqb→eq id a e) (rest.2 (id_of id) one.4)
              | inr e ↦ rest.3 a (ground arith) small
            ],
            λ x m. elim (rest.4 x m) [
              | inl f ↦ elim (one.5 x f) [
                | inl old ↦ inl old
                | inr reach ↦ inr (id, ground arith, lt_of_not_leb _ _ low, reach)
              ]
              | inr flow ↦ inr (flow.0, ground (arith, flow.1), flow.2, flow.3)
            ],
          ),
        )
  ]

  reach_closed :
      (r : List ℕ)
      → IsClosed r
      → (a x : ℕ) → mem a r ≡ true
      → Reaches on_success on_fail a x
      → mem x r ≡ true
  reach_closed r closed a x m here = m
  reach_closed r closed a x m (next {x = y} reach c) =
      ground (arith, closed y x (reach_closed r closed a y m reach) c)

  -- In a chart whose connectors leave nodes below `n` only, the search of StopFlow ends within its
  -- fuel, and finds exactly the ids that a chain of connectors leads to from the id of the node at an argument
  -- below `n`.
  pub flow_ids-Flows :
      (id_of : ℕ → ℕ) (args : List ℕ)
      → (r : List ℕ) × (flow_ids on_success on_fail id_of n args [] ≡ some r)
        × ((x : ℕ) → (mem x r ≡ true) ↔ Flows on_success on_fail id_of n args x)
  flow_ids-Flows id_of args =
      let (r, found) = flow_ids-Found id_of args [] (λ x y m c. ground arith) in
      (
        r,
        found.0,
        λ x. (
          λ m. elim (found.4 x m) [ inl f ↦ absurd (ground arith) | inr flow ↦ flow ],
          λ flow. reach_closed r found.1 (id_of flow.0) x (found.3 flow.0 flow.1 flow.2) flow.3,
        ),
      )
