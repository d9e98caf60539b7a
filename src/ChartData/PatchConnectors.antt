-- ===== src/ChartData/PatchConnectors.antt =====
-- Where the connectors of a chart lead after ChartData::PatchFromYaml (src/core/chart_data.cpp).
use mathlib.Core.Path.{subst}
use mathlib.Core.Option.{some-injective}
use asyncflow.Base.{
  ℕ, ◌<◌, ◌≤◌, String, Bool, true, false, not, ◌≡◌, refl, some, List, [], ◌∷◌, ◌||◌, inl, inr,
  arith, mem, length, get_elem?, set, Option-cases,
}
use asyncflow.ChartData.{NodeFunc, NodeData, ChartData, set_children, get_node_count, get_node_data}
use asyncflow.ChartData.Ids.{IsBelow, IsPlaced, AreBelow, empty-IsBelow}
use asyncflow.ChartData.Placed.{ArePlaced, set-ArePlaced}
use asyncflow.ChartData.Yaml.{YamlNode, YamlChart, init_from_yaml}
use asyncflow.ChartData.YamlChart.{connect_all}
use asyncflow.ChartData.YamlNodes.{
  connect_all-ArePlaced, ArePlaced-at, Kept-IsPlaced, Kept-IsBelow, init_from_yaml-Kept,
}
use asyncflow.ChartData.YamlConnectors.{nodes_of}
use asyncflow.ChartData.YamlPatch.{
  insert_uids, find_index, add_missing, patch_nodes, finish_patch, patch_from_yaml,
}
use asyncflow.ChartData.Patched.{
  get_elem?-lt, insert_uids-IsBelow, AreLinked, add_missing-AreLinked,
}

-- A chart in which each node has its index as its id, and the connectors lead to its nodes.
unfoldable pub IsConnected : ChartData → Type 0
IsConnected d =
    (i : ℕ) (n : NodeData)
    → get_node_data d i ≡ some n
    → (n.node_id ≡ i)
      × ((id : ℕ) → mem id n.on_success ≡ true → id < get_node_count d)
      × ((id : ℕ) → mem id n.on_fail ≡ true → id < get_node_count d)

IsConnected-ArePlaced : (d : ChartData) → IsConnected d → ArePlaced (length d.node_list) d.node_list
unfolding IsConnected ArePlaced IsPlaced AreBelow get_node_count get_node_data
IsConnected-ArePlaced d c = (refl, c)

ArePlaced-IsConnected :
    (k : ℕ) (d : ChartData) → ArePlaced k d.node_list → (get_node_count d ≡ k) × IsConnected d
unfolding IsConnected ArePlaced IsPlaced AreBelow get_node_count get_node_data
ArePlaced-IsConnected k d placed = (
  placed.0,
  λ i n h.
      (let p = placed.1 i n h in
        let count = placed.0 in
        (
          p.0,
          λ id m. (let b = p.1 id m in omega (arith, count)),
          λ id m. (let b = p.2 id m in omega (arith, count)),
        )),
)

clear-IsPlaced : (k i : ℕ) (d : NodeData) → IsPlaced k i d → IsPlaced k i (set_children [] [] d)
unfolding IsPlaced AreBelow set_children
clear-IsPlaced k i d p = (p.0, λ id m. absurd (ground arith), λ id m. absurd (ground arith))

ArePlaced-lt :
    (k i : ℕ) (n : NodeData) (ns : List NodeData) → ArePlaced k ns → get_elem? ns i ≡ some n → i < k
unfolding ArePlaced
ArePlaced-lt k i n ns placed h = (let b = get_elem?-lt ns i n h in omega (arith, placed.0))

IsPlaced-lt : (k i : ℕ) (n : NodeData) → IsPlaced k i n → i < k → n.node_id < k
unfolding IsPlaced
IsPlaced-lt k i n p low = (let e = p.0 in omega arith)

module _ (create_node_func : String → String → NodeFunc) where
  patch_nodes-ArePlaced :
      (k : ℕ) (chart : ChartData) (nodes : List YamlNode) (id_map : List (String × ℕ))
      (ns : List NodeData) (error : Bool) (r : List (String × ℕ) × List NodeData × Bool)
      → IsBelow k id_map
      → ArePlaced k ns
      → patch_nodes create_node_func chart nodes id_map ns error ≡ some r
      → IsBelow k r.0 × ArePlaced k r.1
  unfolding patch_nodes
  patch_nodes-ArePlaced k chart [] id_map ns error r below placed h =
      let e = some-injective (id_map, ns, error) r h in
      (subst (λ x. IsBelow k x.0) e below, subst (λ x. ArePlaced k x.1) e placed)
  patch_nodes-ArePlaced k chart (node ∷ nodes) id_map ns error r below placed h =
      elim (Option-cases node.uid) [
        | inl e ↦
            patch_nodes-ArePlaced k chart nodes id_map ns error r below placed
              (rw (e, patch_nodes) at h)
        | inr (uid, e) ↦ elim (Option-cases (find_index uid ns)) [
          | inl f ↦
              patch_nodes-ArePlaced k chart nodes id_map ns error r below placed
                (rw (e, f, patch_nodes) at h)
          | inr (i, f) ↦ elim (Option-cases (get_elem? ns i)) [
            | inl g ↦ absurd (ground (arith, e, f, g, h))
            | inr (d, g) ↦
                let d0 = set_children [] [] d in
                let p0 = clear-IsPlaced k i d (ArePlaced-at k i d ns placed g) in
                elim (Option-cases (init_from_yaml create_node_func chart node id_map d0)) [
                  | inl o ↦ absurd (ground (arith, e, f, g, o, h))
                  | inr (q, o) ↦
                      let kept = init_from_yaml-Kept create_node_func chart node id_map d0 q o in
                      patch_nodes-ArePlaced k chart nodes q.0 (set ns i q.1) (error || not q.2) r
                        (Kept-IsBelow k i id_map d0 q kept p0 (ArePlaced-lt k i d ns placed g)
                          below)
                        (set-ArePlaced k i q.1 ns (Kept-IsPlaced k i id_map d0 q kept p0) placed)
                        (rw (e, f, g, o, patch_nodes) at h)
                ]
          ]
        ]
      ]

  finish_patch-ArePlaced :
      (k : ℕ) (doc : YamlChart) (d : ChartData) (q : List (String × ℕ) × List NodeData × Bool)
      (r : ChartData × Bool)
      → IsBelow k q.0
      → ArePlaced k q.1
      → finish_patch create_node_func doc d q ≡ some r
      → ArePlaced k (r.0).node_list
  unfolding finish_patch
  finish_patch-ArePlaced k doc d q r below placed h =
      elim (Option-cases (connect_all q.0 doc.connectors q.1)) [
        | inl f ↦ absurd (ground (arith, f, h))
        | inr (ns, f) ↦
            subst (λ x. ArePlaced k (x.0).node_list)
              (some-injective (record d { node_list = ns }, not q.2) r (rw (f, finish_patch) at h))
              (connect_all-ArePlaced k q.0 doc.connectors q.1 ns below placed f)
      ]

  -- A patch of a chart in which each node has its index as its id and the connectors lead to its
  -- nodes gives, whether or not it reports an error, such a chart again, with no fewer nodes.
  pub patch_from_yaml-IsConnected :
      (doc : YamlChart) (d : ChartData) (r : ChartData × Bool)
      → IsConnected d
      → patch_from_yaml create_node_func doc d ≡ some r
      → IsConnected r.0 × (get_node_count d ≤ get_node_count r.0)
  unfolding patch_from_yaml get_node_count AreLinked
  patch_from_yaml-IsConnected doc d r connected h =
      let placed = IsConnected-ArePlaced d connected in
      let m = insert_uids d.node_list [] in
      let below =
        insert_uids-IsBelow (length d.node_list) d.node_list []
          (λ i n g.
            IsPlaced-lt (length d.node_list) i n
              (ArePlaced-at (length d.node_list) i n d.node_list placed g)
              (get_elem?-lt d.node_list i n g))
          (empty-IsBelow (length d.node_list)) in
      let (linked, longer) = add_missing-AreLinked (nodes_of doc) m d.node_list (below, placed) in
      let s = add_missing (nodes_of doc) m d.node_list in
      elim (Option-cases (patch_nodes create_node_func d (nodes_of doc) s.0 s.1 false)) [
        | inl e ↦ absurd (ground (arith, e, h))
        | inr (q, e) ↦
            let (below', placed') =
              patch_nodes-ArePlaced (length s.1) d (nodes_of doc) s.0 s.1 false q linked.0 linked.1
                e in
            let done = ArePlaced-IsConnected (length s.1) r.0 (
              finish_patch-ArePlaced (length s.1) doc d q r below' placed'
                (rw (e, patch_from_yaml) at h)) in
            (done.1, (let count = done.0 in omega (arith, longer)))
      ]
