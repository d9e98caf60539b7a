-- ===== src/ChartData/Ids.antt =====
-- The ids that the uids of a document stand for (src/core/chart_data.cpp).
use asyncflow.Base.{
  ℕ, zero, suc, ◌+◌, ◌<◌, String, Bool, true, false, ◌≡◌, refl, Option, none, some, List, [], ◌∷◌,
  inl, inr, ◌⊎◌, arith, mem, length, find_name, put_name, find_name-put_name, Option-cases, All,
}
use asyncflow.ChartData.{NodeData}
use asyncflow.ChartData.Json.{JsonNode, find_ids, known_ids, number_nodes, start_ids}

-- The ids of the map are below `k`.
unfoldable pub IsBelow : ℕ → List (String × ℕ) → Type 0
IsBelow k id_map = (uid : String) (id : ℕ) → find_name uid id_map ≡ some id → id < k

unfoldable pub AreBelow : ℕ → List ℕ → Type 0
AreBelow k ids = (id : ℕ) → mem id ids ≡ true → id < k

-- The node at an index has it as its id, and its connectors lead below `k`.
unfoldable pub IsPlaced : ℕ → ℕ → NodeData → Type 0
IsPlaced k i node = (node.node_id ≡ i) × AreBelow k node.on_success × AreBelow k node.on_fail

pub put_name-IsBelow :
    (k : ℕ) (uid : String) (id : ℕ) (id_map : List (String × ℕ))
    → id < k
    → IsBelow k id_map
    → IsBelow k (put_name uid id id_map)
unfolding IsBelow
put_name-IsBelow k uid id id_map low below other i h =
    ground (arith, find_name-put_name {V = ℕ} uid other id id_map, below other i)

pub find_ids-AreBelow :
    (k : ℕ) (id_map : List (String × ℕ)) (uids : List String)
    → IsBelow k id_map
    → AreBelow k (find_ids id_map uids)
unfolding IsBelow AreBelow find_ids
find_ids-AreBelow k id_map [] below id m = absurd (ground arith)
find_ids-AreBelow k id_map (uid ∷ uids) below id m = elim (Option-cases (find_name uid id_map)) [
  | inl e ↦ ground (arith, e, find_ids-AreBelow k id_map uids below id)
  | inr (i, e) ↦ ground (arith, e, below uid i e, find_ids-AreBelow k id_map uids below id)
]

pub known_ids-AreBelow :
    (k : ℕ) (id_map : List (String × ℕ)) (uids : Option (List String))
    → IsBelow k id_map
    → AreBelow k (known_ids id_map uids)
unfolding AreBelow known_ids
known_ids-AreBelow k id_map none below id m = absurd (ground arith)
known_ids-AreBelow k id_map (some uids) below id m = find_ids-AreBelow k id_map uids below id m

-- The nodes that have a uid.
abbrev pub has_uid : JsonNode → Bool
has_uid node = elim node.uid [ none ↦ false | some uid ↦ true ]

pub number_nodes-IsBelow :
    (id : ℕ) (nodes : List JsonNode) (id_map : List (String × ℕ))
    → All (λ n. has_uid n ≡ true) nodes
    → IsBelow id id_map
    → (r : List (String × ℕ)) × (number_nodes id nodes id_map ≡ some r)
      × IsBelow (id + length nodes) r
unfolding number_nodes IsBelow
number_nodes-IsBelow id [] id_map uids below =
    (id_map, refl, λ uid i h. (let b = below uid i h in omega arith))
number_nodes-IsBelow id (node ∷ nodes) id_map uids below = elim (Option-cases node.uid) [
  | inl e ↦ absurd (ground (arith, e, uids.0))
  | inr (uid, e) ↦
      let next =
        put_name-IsBelow (id + 1) uid id id_map (omega arith)
          (λ u i h. (let b = below u i h in omega arith)) in
      let (r, found, low) =
        number_nodes-IsBelow (id + 1) nodes (put_name uid id id_map) uids.1 next in
      (r, rw (e, number_nodes) found, λ u i h. (let b = low u i h in omega arith))
]

pub start_ids-IsBelow :
    (k : ℕ) (uids : List String) (id_map : List (String × ℕ))
    → 0 < k
    → IsBelow k id_map
    → IsBelow k (start_ids uids id_map).0 × AreBelow k (start_ids uids id_map).1
unfolding start_ids AreBelow IsBelow
start_ids-IsBelow k [] id_map low below = (below, λ id m. absurd (ground arith))
start_ids-IsBelow k (uid ∷ uids) id_map low below = elim (Option-cases (find_name uid id_map)) [
  | inr (i, e) ↦
      let rest = start_ids-IsBelow k uids id_map low below in
      rw (e, start_ids) (rest.0, λ id m. ground (arith, below uid i e, rest.1 id))
  | inl e ↦
      let rest =
        start_ids-IsBelow k uids (put_name uid 0 id_map) low
          (put_name-IsBelow k uid 0 id_map low below) in
      rw (e, start_ids) (rest.0, λ id m. ground (arith, rest.1 id))
]

pub empty-IsBelow : (k : ℕ) → IsBelow k []
unfolding IsBelow find_name
empty-IsBelow k uid id h = absurd (cc)

pub Index-cases : (i : ℕ) → (i ≡ 0) ⊎ ((j : ℕ) × (i ≡ suc j))
Index-cases zero = inl refl
Index-cases (suc j) = inr (j, refl)
