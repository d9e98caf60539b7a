-- ===== src/ChartData/YamlConnectors.antt =====
-- Where the connectors of a chart lead after ChartData::FromYaml (src/core/chart_data.cpp).
use mathlib.Core.Path.{subst}
use mathlib.Core.Option.{some-injective}
use asyncflow.Base.{
  ℕ, ◌<◌, String, Bool, true, false, ◌≡◌, refl, sym, ◌∙◌, Option, none, some, List, [], ◌++◌, inl,
  inr, arith, mem, length, Option-cases, Bool-cases,
}
use asyncflow.ChartData.{NodeFunc, NodeData, ChartData, get_node_data, get_node_count}
use asyncflow.ChartData.Ids.{IsBelow, IsPlaced, AreBelow, empty-IsBelow}
use asyncflow.ChartData.Placed.{ArePlaced}
use asyncflow.ChartData.Yaml.{YamlNode, YamlVariable, YamlChart}
use asyncflow.ChartData.YamlChart.{
  create_all, enter_all, connect_all, init_nodes, init_variables, load_yaml, from_yaml,
}
use asyncflow.ChartData.YamlNodes.{
  connect_all-ArePlaced, create_all-ArePlaced, enter_all-IsBelow, init_nodes-ArePlaced,
}

enter_all-new : (nodes : List YamlNode) → IsBelow (length nodes) (enter_all 0 nodes [])
enter_all-new nodes =
    subst (λ k. IsBelow k (enter_all 0 nodes [])) (omega arith)
      (enter_all-IsBelow 0 nodes [] (empty-IsBelow 0))

init_variables-node_list :
    (vs : Option (List YamlVariable)) (d : ChartData)
    → (init_variables vs d).node_list ≡ d.node_list
unfolding init_variables
init_variables-node_list none d = refl
init_variables-node_list (some vs) d = refl

-- The nodes of a document; none if the child is missing.
abbrev pub nodes_of : YamlChart → List YamlNode
nodes_of doc = elim doc.nodes [ none ↦ [] | some nodes ↦ nodes ]

module _ (create_node_func : String → String → NodeFunc) where
  load_yaml-ArePlaced :
      (doc : YamlChart) (nodes : List YamlNode) (d : ChartData) (r : ChartData × Bool)
      → d.node_list ≡ []
      → load_yaml create_node_func doc nodes d ≡ some r
      → ArePlaced (length nodes) (r.0).node_list
  unfolding load_yaml
  load_yaml-ArePlaced doc nodes d r new h =
      let m = enter_all 0 nodes [] in
      let ns = d.node_list ++ create_all 0 nodes in
      let placed =
        subst (λ l. ArePlaced (length nodes) (l ++ create_all 0 nodes)) (sym new)
          (create_all-ArePlaced nodes) in
      elim (Option-cases (init_nodes create_node_func d 0 nodes m ns)) [
        | inl e ↦ absurd (ground (arith, e, h))
        | inr (q, e) ↦
            let (below', placed') =
              init_nodes-ArePlaced create_node_func d (length nodes) 0 nodes m ns q
                (enter_all-new nodes) placed (omega arith) e in
            elim (Bool-cases q.2) [
              | inr bad ↦
                  subst (λ x. ArePlaced (length nodes) (x.0).node_list)
                    (some-injective (record d { node_list = q.1 }, false) r
                      (rw (e, bad, load_yaml) at h))
                    placed'
              | inl ok ↦ elim (Option-cases (connect_all q.0 doc.connectors q.1)) [
                | inl f ↦ absurd (ground (arith, e, ok, f, h))
                | inr (ns', f) ↦
                    subst (λ x. ArePlaced (length nodes) (x.0).node_list)
                      (some-injective (record d { node_list = ns' }, true) r
                        (rw (e, ok, f, load_yaml) at h))
                      (connect_all-ArePlaced (length nodes) q.0 doc.connectors q.1 ns' below'
                        placed' f)
              ]
            ]
      ]

  -- A document with a path that is loaded into new data, whether or not the load reports an error,
  -- gives a chart with one node for each of the document. The node at an index has it as its id, and
  -- its connectors, on success and on failure, lead to nodes of the chart.
  pub from_yaml-connectors :
      (doc : YamlChart) (d : ChartData) (path : String) (r : ChartData × Bool)
      → doc.path ≡ some path
      → d.node_list ≡ []
      → from_yaml create_node_func doc d ≡ some r
      → (get_node_count r.0 ≡ length (nodes_of doc))
        × ((i : ℕ) (n : NodeData)
            → get_node_data r.0 i ≡ some n
            → (n.node_id ≡ i)
              × ((id : ℕ) → mem id n.on_success ≡ true → id < get_node_count r.0)
              × ((id : ℕ) → mem id n.on_fail ≡ true → id < get_node_count r.0))
  unfolding from_yaml get_node_count get_node_data ArePlaced IsPlaced AreBelow load_yaml
  from_yaml-connectors doc d path r has_path new h =
      let d1 = init_variables doc.variables (record d { chart_name = path }) in
      let (count, placed) =
        load_yaml-ArePlaced doc (nodes_of doc) d1 r
          (init_variables-node_list doc.variables (record d { chart_name = path }) ∙ new)
          (rw (has_path) at h) in
      (
        count,
        λ i n g.
            (let p = placed i n g in
              (
                p.0,
                λ id m. (let b = p.1 id m in omega (arith, count)),
                λ id m. (let b = p.2 id m in omega (arith, count)),
              )),
      )
