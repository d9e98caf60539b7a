-- ===== src/ChartData/YamlChart.antt =====
-- ChartData::FromYaml (src/core/chart_data.cpp), over the nodes of ChartData/Yaml.
use asyncflow.Base.{
  ℕ, ◌+◌, String, Bool, true, false, Option, none, some, List, [], ◌∷◌, ◌++◌, map, length,
  get_elem?, set, find_name, put_name,
}
use asyncflow.ChartData.{NodeFunc, NodeData, new_node_data, Parameter, ChartData, add_subsequence}
use asyncflow.ChartData.Json.{count_params}
use asyncflow.ChartData.Yaml.{
  YamlNode, YamlVariable, YamlConnector, YamlChart, to_parameter, init_from_yaml,
}

-- `variable_dict_[variables_[i].name] = i` in turn.
unfoldable pub index_variables : ℕ → List Parameter → List (String × ℕ) → List (String × ℕ)
index_variables i [] dict = dict
index_variables i (v ∷ vs) dict = index_variables (i + 1) vs (put_name v.name i dict)

unfoldable pub init_variables : Option (List YamlVariable) → ChartData → ChartData
init_variables none d = d
init_variables (some vs) d =
    let params = map to_parameter vs in
    record d {
      variables = params;
      variable_count = length params;
      params_count = count_params params;
      variable_dict = index_variables 0 params d.variable_dict;
    }

-- The first loop over the nodes: the new data, and the map from their uids to their ids.
unfoldable pub create_node : ℕ → Option String → NodeData
create_node id none = new_node_data id
create_node id (some uid) = record (new_node_data id) { node_uid = uid }

unfoldable pub enter_uid : ℕ → Option String → List (String × ℕ) → List (String × ℕ)
enter_uid id none id_map = id_map
enter_uid id (some uid) id_map = put_name uid id id_map

unfoldable pub create_all : ℕ → List YamlNode → List NodeData
create_all id [] = []
create_all id (node ∷ nodes) = create_node id node.uid ∷ create_all (id + 1) nodes

unfoldable pub enter_all : ℕ → List YamlNode → List (String × ℕ) → List (String × ℕ)
enter_all id [] id_map = id_map
enter_all id (node ∷ nodes) id_map = enter_all (id + 1) nodes (enter_uid id node.uid id_map)

-- The loop over the connectors, on the nodes of the chart. A connector of an unknown node is
-- reported and its node is then read from the end of the map, which is undefined.
unfoldable pub connect :
    List (String × ℕ) → List YamlConnector → List NodeData → Option (List NodeData)
connect id_map [] ns = some ns
connect id_map (c ∷ cs) ns = elim (find_name c.start id_map) [
  | none ↦ none
  | some from ↦ elim (find_name c.end id_map) [
    | none ↦ none
    | some to ↦ elim (get_elem? ns from) [
      | none ↦ none
      | some d ↦ connect id_map cs (set ns from (add_subsequence to c.type d))
    ]
  ]
]

unfoldable pub connect_all :
    List (String × ℕ) → Option (List YamlConnector) → List NodeData → Option (List NodeData)
connect_all id_map none ns = some ns
connect_all id_map (some cs) ns = connect id_map cs ns

module _ (create_node_func : String → String → NodeFunc) where
  -- The second loop over the nodes, at `node_list_[id]`. It ends at the first node that fails.
  unfoldable pub init_nodes :
      ChartData
      → ℕ
      → List YamlNode
      → List (String × ℕ)
      → List NodeData
      → Option (List (String × ℕ) × List NodeData × Bool)
  init_nodes chart id [] id_map ns = some (id_map, ns, true)
  init_nodes chart id (node ∷ nodes) id_map ns = elim (get_elem? ns id) [
    | none ↦ none
    | some d ↦ elim (init_from_yaml create_node_func chart node id_map d) [
      | none ↦ none
      | some (m, d', ok) ↦ elim ok [
        | false ↦ some (m, set ns id d', false)
        | true ↦ init_nodes chart (id + 1) nodes m (set ns id d')
      ]
    ]
  ]

  -- FromYaml after the variables, on the nodes of the document.
  unfoldable pub load_yaml : YamlChart → List YamlNode → ChartData → Option (ChartData × Bool)
  load_yaml doc nodes d =
      elim (init_nodes d 0 nodes (enter_all 0 nodes []) (d.node_list ++ create_all 0 nodes)) [
        | none ↦ none
        | some (m, ns, ok) ↦ elim ok [
          | false ↦ some (record d { node_list = ns }, false)
          | true ↦ elim (connect_all m doc.connectors ns) [
            | none ↦ none
            | some ns' ↦ some (record d { node_list = ns' }, true)
          ]
        ]
      ]

  -- ChartData::FromYaml; `none` is undefined.
  unfoldable pub from_yaml : YamlChart → ChartData → Option (ChartData × Bool)
  from_yaml doc d = elim doc.path [
    | none ↦ some (d, false)
    | some path ↦
        load_yaml doc (elim doc.nodes [ none ↦ [] | some nodes ↦ nodes ])
          (init_variables doc.variables (record d { chart_name = path }))
  ]
