-- ===== src/ChartData/YamlNodes.antt =====
-- The loops over the nodes in ChartData::FromYaml (src/core/chart_data.cpp): the places of the
-- nodes and the ids in the map.
use mathlib.Core.Path.{subst}
use mathlib.Core.Option.{some-injective}
use asyncflow.Base.{
  ℕ, zero, suc, ◌+◌, ◌<◌, ◌≤◌, String, Bool, true, false, ◌≡◌, refl, sym, ◌∙◌, Option, none, some,
  List, [], ◌∷◌, ◌==◌, inl, inr, arith, length, get_elem?, set, put_name, Option-cases, Bool-cases,
}
use asyncflow.ChartData.{NodeFunc, NodeData, ChartData}
use asyncflow.ChartData.Ids.{IsBelow, IsPlaced, AreBelow, put_name-IsBelow}
use asyncflow.ChartData.Placed.{ArePlaced, set-ArePlaced, connect-ArePlaced}
use asyncflow.ChartData.Yaml.{
  YamlNode, YamlConnector, YamlCode, init_from_yaml, init_code, init_call, init_control, init_text,
}
use asyncflow.ChartData.YamlChart.{
  create_node, create_all, enter_uid, enter_all, connect_all, init_nodes,
}

pub connect_all-ArePlaced :
    (k : ℕ) (id_map : List (String × ℕ)) (cs : Option (List YamlConnector)) (ns r : List NodeData)
    → IsBelow k id_map
    → ArePlaced k ns
    → connect_all id_map cs ns ≡ some r
    → ArePlaced k r
unfolding connect_all
connect_all-ArePlaced k id_map none ns r below placed h =
    subst (ArePlaced k) (some-injective _ _ h) placed
connect_all-ArePlaced k id_map (some cs) ns r below placed h =
    connect-ArePlaced k id_map cs ns r below placed h

pub create_node-IsPlaced : (k id : ℕ) (uid : Option String) → IsPlaced k id (create_node id uid)
unfolding create_node IsPlaced AreBelow
create_node-IsPlaced k id none = (refl, λ i m. absurd (ground arith), λ i m. absurd (ground arith))
create_node-IsPlaced k id (some uid) =
    (refl, λ i m. absurd (ground arith), λ i m. absurd (ground arith))

length-create_all : (id : ℕ) (nodes : List YamlNode) → length (create_all id nodes) ≡ length nodes
unfolding create_all
length-create_all id [] = refl
length-create_all id (node ∷ nodes) = omega (arith, length-create_all (id + 1) nodes)

create_all-IsPlaced :
    (k id : ℕ) (nodes : List YamlNode) (i : ℕ) (n : NodeData)
    → get_elem? (create_all id nodes) i ≡ some n
    → IsPlaced k (id + i) n
unfolding create_all
create_all-IsPlaced k id [] i n h = absurd (ground (arith, h))
create_all-IsPlaced k id (node ∷ nodes) zero n h =
    subst (IsPlaced k (id + 0)) (some-injective _ _ h) (
      subst (λ x. IsPlaced k x (create_node id node.uid)) (omega arith)
        (create_node-IsPlaced k id node.uid))
create_all-IsPlaced k id (node ∷ nodes) (suc i) n h =
    subst (λ x. IsPlaced k x n) (omega arith) (create_all-IsPlaced k (id + 1) nodes i n h)

pub create_all-ArePlaced : (nodes : List YamlNode) → ArePlaced (length nodes) (create_all 0 nodes)
unfolding ArePlaced
create_all-ArePlaced nodes = (
  length-create_all 0 nodes,
  λ i n h.
      subst (λ x. IsPlaced (length nodes) x n) (omega arith)
        (create_all-IsPlaced (length nodes) 0 nodes i n h),
)

enter_uid-IsBelow :
    (id : ℕ) (uid : Option String) (id_map : List (String × ℕ))
    → IsBelow id id_map
    → IsBelow (id + 1) (enter_uid id uid id_map)
unfolding enter_uid IsBelow
enter_uid-IsBelow id none id_map below = λ u i h. (let b = below u i h in omega arith)
enter_uid-IsBelow id (some uid) id_map below =
    put_name-IsBelow (id + 1) uid id id_map (omega arith)
      (λ u i h. (let b = below u i h in omega arith))

pub enter_all-IsBelow :
    (id : ℕ) (nodes : List YamlNode) (id_map : List (String × ℕ))
    → IsBelow id id_map
    → IsBelow (id + length nodes) (enter_all id nodes id_map)
unfolding enter_all IsBelow
enter_all-IsBelow id [] id_map below = λ u i h. (let b = below u i h in omega arith)
enter_all-IsBelow id (node ∷ nodes) id_map below = λ u i h.
    (let b =
        enter_all-IsBelow (id + 1) nodes (enter_uid id node.uid id_map)
          (enter_uid-IsBelow id node.uid id_map below) u i h in
      omega arith)

-- What InitFromYaml leaves of a node, and what it adds to the map.
pub Kept : List (String × ℕ) → NodeData → List (String × ℕ) × NodeData × Bool → Type 0
Kept id_map d r =
    ((r.1).node_id ≡ d.node_id)
    × ((r.1).on_success ≡ d.on_success)
    × ((r.1).on_fail ≡ d.on_fail)
    × ((uid : String) × (r.0 ≡ put_name uid d.node_id id_map))

pub ArePlaced-at :
    (k i : ℕ) (n : NodeData) (ns : List NodeData)
    → ArePlaced k ns
    → get_elem? ns i ≡ some n
    → IsPlaced k i n
unfolding ArePlaced
ArePlaced-at k i n ns placed h = placed.1 i n h

pub Kept-IsPlaced :
    (k i : ℕ) (id_map : List (String × ℕ)) (d : NodeData) (r : List (String × ℕ) × NodeData × Bool)
    → Kept id_map d r
    → IsPlaced k i d
    → IsPlaced k i r.1
unfolding Kept IsPlaced
Kept-IsPlaced k i id_map d r kept placed = (
  kept.0 ∙ placed.0,
  subst (AreBelow k) (sym kept.1) placed.1,
  subst (AreBelow k) (sym kept.2) placed.2,
)

pub Kept-IsBelow :
    (k i : ℕ) (id_map : List (String × ℕ)) (d : NodeData) (r : List (String × ℕ) × NodeData × Bool)
    → Kept id_map d r
    → IsPlaced k i d
    → i < k
    → IsBelow k id_map
    → IsBelow k r.0
unfolding Kept IsPlaced
Kept-IsBelow k i id_map d r kept placed low below =
    let (uid, e) = kept.3 in
    subst (IsBelow k) (sym e)
      (put_name-IsBelow k uid d.node_id id_map (let p = placed.0 in omega arith) below)

module _ (create_node_func : String → String → NodeFunc) (chart : ChartData) where
  init_code-children :
      (id_map : List (String × ℕ)) (code : YamlCode) (d : NodeData) (r : NodeData × Bool)
      → init_code create_node_func chart id_map code d ≡ some r
      → ((r.0).node_id ≡ d.node_id)
        × ((r.0).on_success ≡ d.on_success)
        × ((r.0).on_fail ≡ d.on_fail)
  unfolding init_code init_call init_control
  init_code-children id_map code d r h = ground arith

  pub init_from_yaml-Kept :
      (node : YamlNode) (id_map : List (String × ℕ)) (d : NodeData)
      (r : List (String × ℕ) × NodeData × Bool)
      → init_from_yaml create_node_func chart node id_map d ≡ some r
      → Kept id_map d r
  unfolding init_from_yaml init_text Kept
  init_from_yaml-Kept node id_map d r h = elim (Option-cases node.uid) [
    | inl e ↦ absurd (ground (arith, e, h))
    | inr (uid, e) ↦
        let m = put_name uid d.node_id id_map in
        elim (Bool-cases (d.node_id == 0)) [
          | inl z ↦
              subst (Kept id_map d)
                (some-injective (m, record d { node_uid = uid }, true) r (rw (e, z) at h))
                (refl, refl, refl, (uid, refl))
          | inr z ↦ elim (Option-cases node.code) [
            | inl c ↦
                subst (Kept id_map d)
                  (some-injective (m, init_text node uid d, true) r (rw (e, z, c) at h))
                  (refl, refl, refl, (uid, refl))
            | inr (code, c) ↦
                elim (Option-cases
                  (init_code create_node_func chart m code (init_text node uid d))) [
                    | inl i ↦ absurd (ground (arith, e, z, c, i, h))
                    | inr (q, i) ↦
                        let k = init_code-children m code (init_text node uid d) q i in
                        subst (Kept id_map d)
                          (some-injective (m, q.0, q.1) r (rw (e, z, c, i) at h))
                          (k.0, k.1, k.2, (uid, refl))
                  ]
          ]
        ]
  ]

  pub init_nodes-ArePlaced :
      (k id : ℕ) (nodes : List YamlNode) (id_map : List (String × ℕ)) (ns : List NodeData)
      (r : List (String × ℕ) × List NodeData × Bool)
      → IsBelow k id_map
      → ArePlaced k ns
      → id + length nodes ≤ k
      → init_nodes create_node_func chart id nodes id_map ns ≡ some r
      → IsBelow k r.0 × ArePlaced k r.1
  unfolding init_nodes
  init_nodes-ArePlaced k id [] id_map ns r below placed low h =
      let e = some-injective (id_map, ns, true) r h in
      (subst (λ x. IsBelow k x.0) e below, subst (λ x. ArePlaced k x.1) e placed)
  init_nodes-ArePlaced k id (node ∷ nodes) id_map ns r below placed low h =
      elim (Option-cases (get_elem? ns id)) [
        | inl e ↦ absurd (ground (arith, e, h))
        | inr (d, e) ↦ elim (Option-cases (init_from_yaml create_node_func chart node id_map d)) [
          | inl f ↦ absurd (ground (arith, e, f, h))
          | inr (q, f) ↦
              let kept = init_from_yaml-Kept node id_map d q f in
              let below' =
                Kept-IsBelow k id id_map d q kept (ArePlaced-at k id d ns placed e) (omega arith)
                  below in
              let placed' =
                set-ArePlaced k id q.1 ns
                  (Kept-IsPlaced k id id_map d q kept (ArePlaced-at k id d ns placed e)) placed in
              elim (Bool-cases q.2) [
                | inl ok ↦
                    init_nodes-ArePlaced k (id + 1) nodes q.0 (set ns id q.1) r below' placed'
                      (omega arith) (rw (e, f, ok, init_nodes) at h)
                | inr bad ↦
                    let g =
                      some-injective (q.0, set ns id q.1, false) r
                        (rw (e, f, bad, init_nodes) at h) in
                    (subst (λ x. IsBelow k x.0) g below', subst (λ x. ArePlaced k x.1) g placed')
              ]
        ]
      ]
