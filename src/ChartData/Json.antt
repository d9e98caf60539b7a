-- ===== src/ChartData/Json.antt =====
-- The loading of a chart from JSON: ChartData::FromJson and InitParamsFromJson
-- (src/core/chart_data.cpp) and NodeData::InitFromJson (src/core/node_data.cpp). The parser is
-- third-party code. A document is what the code reads of it: each member, or that it is missing.
use text.Mathlib.Text.{◌==◌ as str_eq}
use asyncflow.Base.{
  ℕ, suc, ◌+◌, String, Bool, true, false, Option, none, some, List, [], ◌∷◌, ◌++◌, if◌then◌else◌,
  find_name, put_name,
}
use asyncflow.ChartData.{
  NodeFunc, control, wait_all, stop_node, stop_flow, NodeData, new_node_data, Parameter, ChartData,
}

-- A negative `subChartVar` is no variable.
pub record JsonNode : Type 0 where
  pub uid : Option String
  pub text : Option String
  pub func_name : Option String
  pub type : Option String
  pub param : Option (List String)
  pub sub_chart_var : Option (Option ℕ)
  pub success : Option (List String)
  pub fail : Option (List String)

pub record JsonChart : Type 0 where
  pub path : Option String
  pub var_count : Option ℕ
  pub variables : Option (List Parameter)
  pub nodes : Option (List JsonNode)
  pub start : Option (List String)
  pub start_func : Option String

-- The ids of the uids that are known; the others are reported and left out.
unfoldable pub find_ids : List (String × ℕ) → List String → List ℕ
find_ids id_map [] = []
find_ids id_map (uid ∷ uids) = elim (find_name uid id_map) [
  | none ↦ find_ids id_map uids
  | some id ↦ id ∷ find_ids id_map uids
]

unfoldable pub known_ids : List (String × ℕ) → Option (List String) → List ℕ
known_ids id_map none = []
known_ids id_map (some uids) = find_ids id_map uids

abbrev pub or_empty : Option String → String → String
or_empty none old = old
or_empty (some s) old = s

-- A control function by its name; any other name is reported.
unfoldable pub create_control : String → List ℕ → NodeFunc → NodeFunc
create_control name ids old =
    if str_eq name "wait_all"
    then control wait_all ids
    else if str_eq name "stop_node"
    then control stop_node ids
    else if str_eq name "stop_flow"
    then control stop_flow ids
    else old

-- InitParamsFromJson, if there are variables.
unfoldable pub count_params : List Parameter → ℕ
count_params [] = 0
count_params (v ∷ vs) = if v.is_params then suc (count_params vs) else count_params vs

unfoldable pub init_params : Option (List Parameter) → ChartData → ChartData
init_params none d = d
init_params (some vs) d = record d { variables = vs; params_count = count_params vs }

-- The loop that gives each uid its id; a node without a uid is undefined.
unfoldable pub number_nodes : ℕ → List JsonNode → List (String × ℕ) → Option (List (String × ℕ))
number_nodes id [] id_map = some id_map
number_nodes id (node ∷ nodes) id_map = elim node.uid [
  | none ↦ none
  | some uid ↦ number_nodes (id + 1) nodes (put_name uid id id_map)
]

-- The start nodes by `id_map[uid]`, which enters an unknown uid with 0.
unfoldable pub start_ids : List String → List (String × ℕ) → List (String × ℕ) × List ℕ
start_ids [] id_map = (id_map, [])
start_ids (uid ∷ uids) id_map = elim (find_name uid id_map) [
  | some id ↦ let r = start_ids uids id_map in (r.0, id ∷ r.1)
  | none ↦ let r = start_ids uids (put_name uid 0 id_map) in (r.0, 0 ∷ r.1)
]

-- `create_node_func` makes a function of the scripting language of its code and name.
module _ (create_node_func : String → String → NodeFunc) where
  -- The part of InitFromJson for the type of a node.
  unfoldable pub init_func : List (String × ℕ) → JsonNode → String → NodeData → NodeData
  init_func id_map node type d =
      let name = or_empty node.func_name "" in
      if str_eq type "function"
      then record d { node_func = create_node_func "" name }
      else if str_eq type "event"
      then record d { node_func = create_node_func "" name; is_event = true }
      else if str_eq type "control"
      then elim node.param [
        | none ↦ d
        | some uids ↦ record d {
          node_func = create_control name (find_ids id_map uids) d.node_func;
        }
      ]
      else d

  -- NodeData::InitFromJson
  unfoldable pub init_from_json : List (String × ℕ) → JsonNode → NodeData → NodeData
  init_from_json id_map node d =
      let d1 = record d {
        node_uid = or_empty node.uid d.node_uid;
        text = or_empty node.text d.text;
      } in
      let d2 : NodeData = elim node.type [
        | none ↦ d1
        | some type ↦ init_func id_map node type d1
      ] in
      record d2 {
        var_id = elim node.sub_chart_var [ none ↦ d2.var_id | some v ↦ v ];
        on_success = d2.on_success ++ known_ids id_map node.success;
        on_fail = d2.on_fail ++ known_ids id_map node.fail;
      }

  unfoldable pub load_nodes : List (String × ℕ) → ℕ → List JsonNode → List NodeData
  load_nodes id_map id [] = []
  load_nodes id_map id (node ∷ nodes) =
      init_from_json id_map node (new_node_data id) ∷ load_nodes id_map (id + 1) nodes

  -- The start node, with the function that is called at the start of the chart.
  unfoldable pub start_node : Option String → List ℕ → NodeData
  start_node none ids = record (new_node_data 0) { on_fail = ids; on_success = ids }
  start_node (some name) ids = record (new_node_data 0) {
    on_fail = ids;
    on_success = ids;
    node_func = create_node_func "" name;
  }

  -- The end of FromJson, when the members that it needs are there.
  unfoldable pub load_chart :
      JsonChart → String → List JsonNode → List (String × ℕ) → List String → ChartData → ChartData
  load_chart doc path nodes id_map start d =
      let r = start_ids start id_map in
      record d {
        chart_name = path;
        variable_count = elim doc.var_count [ none ↦ 0 | some n ↦ n ];
        start_func_name = or_empty doc.start_func d.start_func_name;
        node_list = d.node_list ++ start_node doc.start_func r.1 ∷ load_nodes r.0 1 nodes;
      }

  -- ChartData::FromJson; `none` is undefined.
  unfoldable pub from_json : JsonChart → ChartData → Option (ChartData × Bool)
  from_json doc d = elim doc.path [
    | none ↦ some (d, false)
    | some path ↦
        let d1 = init_params doc.variables d in
        elim doc.nodes [
          | none ↦ some (d1, false)
          | some nodes ↦ elim doc.start [
            | none ↦ some (d1, false)
            | some start ↦ elim (number_nodes 1 nodes []) [
              | none ↦ none
              | some id_map ↦ some (load_chart doc path nodes id_map start d1, true)
            ]
          ]
        ]
  ]
