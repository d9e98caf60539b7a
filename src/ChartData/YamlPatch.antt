-- ===== src/ChartData/YamlPatch.antt =====
-- ChartData::PatchFromYaml (src/core/chart_data.cpp): a document changes the nodes that a chart has,
-- and adds the others.
use text.Mathlib.Text.{◌==◌ as str_eq}
use asyncflow.Base.{
  ℕ, suc, String, Bool, false, not, Option, none, some, List, [], ◌∷◌, ◌++◌, ◌||◌, if◌then◌else◌,
  length, get_elem?, set, find_name, put_name,
}
use asyncflow.ChartData.{NodeFunc, NodeData, ChartData, set_children}
use asyncflow.ChartData.Yaml.{YamlNode, YamlChart, init_from_yaml}
use asyncflow.ChartData.YamlChart.{create_node, connect_all}

-- `id_map.insert`, which keeps an entry that is there.
unfoldable pub insert_uid : String → ℕ → List (String × ℕ) → List (String × ℕ)
insert_uid uid id id_map = elim (find_name uid id_map) [
  | some _ ↦ id_map
  | none ↦ put_name uid id id_map
]

unfoldable pub insert_uids : List NodeData → List (String × ℕ) → List (String × ℕ)
insert_uids [] id_map = id_map
insert_uids (d ∷ ds) id_map = insert_uids ds (insert_uid d.node_uid d.node_id id_map)

-- The index of the node that ChartData::GetNodeData finds by a uid.
unfoldable pub find_index : String → List NodeData → Option ℕ
find_index uid [] = none
find_index uid (d ∷ ds) =
    let rest = find_index uid ds in
    if str_eq d.node_uid uid then some 0 else elim rest [ none ↦ none | some i ↦ some (suc i) ]

-- The first loop over the nodes of the document, which adds those that the chart does not have.
unfoldable pub add_missing :
    List YamlNode → List (String × ℕ) → List NodeData → List (String × ℕ) × List NodeData
add_missing [] id_map ns = (id_map, ns)
add_missing (node ∷ nodes) id_map ns = elim node.uid [
  | none ↦ add_missing nodes id_map ns
  | some uid ↦ elim (find_index uid ns) [
    | some _ ↦ add_missing nodes id_map ns
    | none ↦
        add_missing nodes (put_name uid (length ns) id_map)
          (ns ++ create_node (length ns) (some uid) ∷ [])
  ]
]

module _ (create_node_func : String → String → NodeFunc) where
  -- The second loop, which reads each node anew; `error` is hasError.
  unfoldable pub patch_nodes :
      ChartData
      → List YamlNode
      → List (String × ℕ)
      → List NodeData
      → Bool
      → Option (List (String × ℕ) × List NodeData × Bool)
  patch_nodes chart [] id_map ns error = some (id_map, ns, error)
  patch_nodes chart (node ∷ nodes) id_map ns error = elim node.uid [
    | none ↦ patch_nodes chart nodes id_map ns error
    | some uid ↦ elim (find_index uid ns) [
      | none ↦ patch_nodes chart nodes id_map ns error
      | some i ↦ elim (get_elem? ns i) [
        | none ↦ none
        | some d ↦ elim (init_from_yaml create_node_func chart node id_map (set_children [] [] d)) [
          | none ↦ none
          | some q ↦ patch_nodes chart nodes q.0 (set ns i q.1) (error || not q.2)
        ]
      ]
    ]
  ]

  unfoldable pub finish_patch :
      YamlChart → ChartData → List (String × ℕ) × List NodeData × Bool → Option (ChartData × Bool)
  finish_patch doc d q = elim (connect_all q.0 doc.connectors q.1) [
    | none ↦ none
    | some ns ↦ some (record d { node_list = ns }, not q.2)
  ]

  -- ChartData::PatchFromYaml; `none` is undefined.
  unfoldable pub patch_from_yaml : YamlChart → ChartData → Option (ChartData × Bool)
  patch_from_yaml doc d =
      let nodes : List YamlNode = elim doc.nodes [ none ↦ [] | some nodes ↦ nodes ] in
      let r = add_missing nodes (insert_uids d.node_list []) d.node_list in
      elim (patch_nodes d nodes r.0 r.1 false) [ none ↦ none | some q ↦ finish_patch doc d q ]
