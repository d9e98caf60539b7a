-- ===== src/Engine/Reach/Defs.antt =====
-- The search of Manager::StopFlow (src/core/manager.cpp): the ids that a queue of nodes leads to. The
-- `std::set` of the ids found is a list in ascending order. The fuel of the `while` loop is the
-- number of connectors of the chart and the length of the queue.
use asyncflow.Base.{
  ℕ, zero, suc, ◌+◌, Option, none, some, List, [], ◌∷◌, ◌++◌, if◌then◌else◌, ltb, leb, mem, length,
}

-- `std::set::insert` of an id that is not there.
unfoldable pub set_insert : ℕ → List ℕ → List ℕ
set_insert a [] = a ∷ []
set_insert a (x ∷ xs) = if ltb a x then a ∷ x ∷ xs else x ∷ set_insert a xs

-- `on_success` and `on_fail` give the children of a node.
module _ (on_success on_fail : ℕ → List ℕ) where
  -- while (!id_queue.empty()) ...
  unfoldable pub drain_queue : ℕ → List ℕ → List ℕ → Option (List ℕ)
  drain_queue fuel [] found = some found
  drain_queue zero (head ∷ queue) found = none
  drain_queue (suc fuel) (head ∷ queue) found =
      drain_queue fuel
        (if mem head found then queue else (queue ++ on_success head) ++ on_fail head)
        (if mem head found then found else set_insert head found)

  -- The number of connectors that leave a node below `n`.
  unfoldable pub connectors : ℕ → ℕ
  connectors zero = 0
  connectors (suc n) = connectors n + (length (on_success n) + length (on_fail n))

  -- for (auto id : args), with the warning for an id that is out of range. `id_of` gives the id of
  -- the node at an index.
  unfoldable pub flow_ids : (ℕ → ℕ) → ℕ → List ℕ → List ℕ → Option (List ℕ)
  flow_ids id_of max_id [] found = some found
  flow_ids id_of max_id (id ∷ args) found =
      elim (if leb max_id id
        then some found
        else drain_queue (suc (connectors max_id)) (id_of id ∷ []) found) [
          | none ↦ none
          | some found' ↦ flow_ids id_of max_id args found'
        ]
