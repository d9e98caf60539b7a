-- ===== src/ChartData/Connectors.antt =====
-- Where the connectors of a chart lead after ChartData::FromJson (src/core/chart_data.cpp).
use mathlib.Core.Path.{subst}
use mathlib.Core.Option.{some-injective}
use asyncflow.Base.{
  sym, ℕ, zero, suc, ◌+◌, ◌<◌, String, true, ◌≡◌, refl, ◌∙◌, ap, Option, none, some, List, [], ◌∷◌,
  ◌++◌, inl, inr, arith, mem, length, get_elem?, All,
}
use asyncflow.ChartData.{
  NodeFunc, NodeData, new_node_data, Parameter, ChartData, get_node_data, get_node_count,
}
use asyncflow.ChartData.Json.{
  JsonNode, JsonChart, known_ids, start_ids, init_func, init_from_json, load_nodes, start_node,
  load_chart, init_params, from_json,
}
use asyncflow.ChartData.Ids.{
  IsBelow, AreBelow, IsPlaced, empty-IsBelow, Index-cases, has_uid, known_ids-AreBelow,
  number_nodes-IsBelow, start_ids-IsBelow,
}

init_params-node_list :
    (vs : Option (List Parameter)) (d : ChartData) → (init_params vs d).node_list ≡ d.node_list
unfolding init_params
init_params-node_list none d = refl
init_params-node_list (some vs) d = refl

module _ (create_node_func : String → String → NodeFunc) where
  init_func-children :
      (id_map : List (String × ℕ)) (node : JsonNode) (type : String) (d : NodeData)
      → let r = init_func create_node_func id_map node type d in
        (r.node_id ≡ d.node_id) × (r.on_success ≡ d.on_success) × (r.on_fail ≡ d.on_fail)
  unfolding init_func
  init_func-children id_map node type d = ground arith

  init_from_json-children :
      (id_map : List (String × ℕ)) (node : JsonNode) (d : NodeData)
      → let r = init_from_json create_node_func id_map node d in
        (r.node_id ≡ d.node_id)
        × (r.on_success ≡ d.on_success ++ known_ids id_map node.success)
        × (r.on_fail ≡ d.on_fail ++ known_ids id_map node.fail)
  unfolding init_from_json init_func
  init_from_json-children id_map node d = ground arith

  init_from_json-IsPlaced :
      (k i : ℕ) (id_map : List (String × ℕ)) (node : JsonNode)
      → IsBelow k id_map
      → IsPlaced k i (init_from_json create_node_func id_map node (new_node_data i))
  unfolding IsPlaced
  init_from_json-IsPlaced k i id_map node below =
      let c = init_from_json-children id_map node (new_node_data i) in
      (
        c.0,
        subst (AreBelow k) (sym c.1) (known_ids-AreBelow k id_map node.success below),
        subst (AreBelow k) (sym c.2) (known_ids-AreBelow k id_map node.fail below),
      )

  length-load_nodes :
      (id_map : List (String × ℕ)) (i : ℕ) (nodes : List JsonNode)
      → length (load_nodes create_node_func id_map i nodes) ≡ length nodes
  unfolding load_nodes
  length-load_nodes id_map i [] = refl
  length-load_nodes id_map i (node ∷ nodes) = omega (arith, length-load_nodes id_map (i + 1) nodes)

  load_nodes-IsPlaced :
      (k i : ℕ) (id_map : List (String × ℕ)) (nodes : List JsonNode) (j : ℕ) (n : NodeData)
      → IsBelow k id_map
      → get_elem? (load_nodes create_node_func id_map i nodes) j ≡ some n
      → IsPlaced k (i + j) n
  unfolding load_nodes
  load_nodes-IsPlaced k i id_map [] j n below h = absurd (ground (arith, h))
  load_nodes-IsPlaced k i id_map (node ∷ nodes) zero n below h =
      subst (IsPlaced k (i + 0)) (some-injective _ _ h) (
        subst (λ x. IsPlaced k x (init_from_json create_node_func id_map node (new_node_data i)))
          (omega arith) (init_from_json-IsPlaced k i id_map node below))
  load_nodes-IsPlaced k i id_map (node ∷ nodes) (suc j) n below h =
      subst (λ x. IsPlaced k x n) (omega arith)
        (load_nodes-IsPlaced k (i + 1) id_map nodes j n below h)

  start_node-IsPlaced :
      (k : ℕ) (name : Option String) (ids : List ℕ)
      → AreBelow k ids
      → IsPlaced k 0 (start_node create_node_func name ids)
  unfolding IsPlaced start_node
  start_node-IsPlaced k none ids low = (refl, low, low)
  start_node-IsPlaced k (some name) ids low = (refl, low, low)

  load_chart-IsPlaced :
      (doc : JsonChart) (path : String) (nodes : List JsonNode) (id_map : List (String × ℕ))
      (start : List String) (d : ChartData)
      → d.node_list ≡ []
      → IsBelow (suc (length nodes)) id_map
      → let r = load_chart create_node_func doc path nodes id_map start d in
        (length r.node_list ≡ suc (length nodes))
        × ((i : ℕ) (n : NodeData)
            → get_elem? r.node_list i ≡ some n
            → IsPlaced (suc (length nodes)) i n)
  unfolding load_chart
  load_chart-IsPlaced doc path nodes id_map start d new below =
      let k = suc (length nodes) in
      let (below', low) = start_ids-IsBelow k start id_map (omega arith) below in
      let s = start_ids start id_map in
      let first = start_node-IsPlaced k doc.start_func s.1 low in
      let all =
        start_node create_node_func doc.start_func s.1 ∷ load_nodes create_node_func s.0 1 nodes in
      rw new (
        omega (arith, length-load_nodes s.0 1 nodes),
        λ i n h. elim (Index-cases i) [
          | inl z ↦
              subst (λ x. IsPlaced k x n) (sym z)
                (subst (IsPlaced k 0) (some-injective _ _ (ap (get_elem? all) (sym z) ∙ h)) first)
          | inr (j, e) ↦
              subst (λ x. IsPlaced k x n) (sym e)
                (subst (λ x. IsPlaced k x n) (omega arith)
                  (load_nodes-IsPlaced k 1 s.0 nodes j n below' (ap (get_elem? all) (sym e) ∙ h)))
        ],
      )

  -- A document with a path, nodes that have uids, and a list of start nodes is loaded into new data:
  -- the chart has the path as its name, the start node and one node for each of the document; the
  -- node at an index has it as its id, and its connectors, on success and on failure, lead to nodes
  -- of the chart, whatever uids the document names.
  pub from_json-connectors :
      (doc : JsonChart) (d : ChartData) (path : String) (nodes : List JsonNode)
      (start : List String)
      → doc.path ≡ some path
      → doc.nodes ≡ some nodes
      → doc.start ≡ some start
      → All (λ n. has_uid n ≡ true) nodes
      → d.node_list ≡ []
      → (r : ChartData) × (from_json create_node_func doc d ≡ some (r, true))
        × (r.chart_name ≡ path)
        × (get_node_count r ≡ suc (length nodes))
        × ((i : ℕ) (n : NodeData)
            → get_node_data r i ≡ some n
            → (n.node_id ≡ i)
              × ((id : ℕ) → mem id n.on_success ≡ true → id < get_node_count r)
              × ((id : ℕ) → mem id n.on_fail ≡ true → id < get_node_count r))
  unfolding from_json get_node_count get_node_data IsPlaced AreBelow load_chart
  from_json-connectors doc d path nodes start has_path has_nodes has_start uids new =
      let (id_map, found, below) = number_nodes-IsBelow 1 nodes [] uids (empty-IsBelow 1) in
      let d1 = init_params doc.variables d in
      let r = load_chart create_node_func doc path nodes id_map start d1 in
      let (count, placed) =
        load_chart-IsPlaced doc path nodes id_map start d1
          (init_params-node_list doc.variables d ∙ new)
          (subst (λ k. IsBelow k id_map) (omega arith) below) in
      (
        r,
        rw (has_path, has_nodes, has_start, found) refl,
        refl,
        count,
        λ i n h.
            (let p = placed i n h in
              (
                p.0,
                λ id m. (let b = p.1 id m in omega (arith, count)),
                λ id m. (let b = p.2 id m in omega (arith, count)),
              )),
      )
