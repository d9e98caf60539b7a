-- ===== src/Debug/Messages.antt =====
-- The replies and notifications of JsonDebugger (src/debug/json_debugger.cpp).
use asyncflow.Debug.{
  c_str, Token, ChartInfo, object, member_string, DebugData, write_string, serialize_chart_info,
  member_uint64, member_int, serialize_all, array,
}
use asyncflow.ChartData.{ChartData, NodeData, get_subsequence_ids}
use asyncflow.Base.{
  ◌∷◌, ◌++◌, [], ℕ, String, some, List, true, Option, none, zero, false, ℤ, get_elem?, negsuc,
}

-- No id for -1.
unfoldable pub id_member : ℤ → List Token
id_member (negsuc zero) = []
id_member id = member_int "id" id

abbrev pub method_members : String → List Token
method_members method = member_string "jsonrpc" "2.0" ++ member_string "method" method

-- JsonDebugger::ErrorReply
unfoldable pub error_reply : ℤ → String → ℤ → List Token
error_reply code error_msg msg_id = object (
    (write_string "error" ∷ object (member_int "code" code ++ member_string "message" error_msg))
    ++ id_member msg_id)

abbrev pub write_strings : List String → List Token
write_strings [] = []
write_strings (s ∷ ss) = write_string (c_str s) ∷ write_strings ss

abbrev pub write_pairs : List (String × String) → List Token
write_pairs [] = []
write_pairs ((name, value) ∷ rest) = member_string (c_str name) value ++ write_pairs rest

-- The two of JsonDebugger::SimpleReply
unfoldable pub simple_reply_list : String → List String → ℤ → List Token
simple_reply_list method result msg_id = object (
    method_members method
    ++ (write_string "result" ∷ array (write_strings result))
    ++ id_member msg_id)

unfoldable pub simple_reply_map : String → List (String × String) → ℤ → List Token
simple_reply_map method result msg_id = object (
    method_members method
    ++ (write_string "result" ∷ object (write_pairs result))
    ++ id_member msg_id)

-- JsonDebugger::StopMessage
unfoldable pub stop_message : String → List Token
stop_message chart_name = object (
    method_members "stop_chart"
    ++ write_string "params" ∷ object (member_string "chart_name" chart_name))

-- The parameters that tell which chart is meant.
unfoldable pub chart_params : String → ℕ → ℕ → List Token
chart_params chart_name agent_id owner_node_addr = object (
    member_string "chart_name" chart_name
    ++ member_uint64 "agent_id" agent_id
    ++ member_uint64 "owner_node_addr" owner_node_addr)

-- JsonDebugger::GenChartInfo, of the name of the chart, its agent's id and its owner.
unfoldable pub gen_chart_info : String → ℕ → ℕ → List Token
gen_chart_info chart_name agent_id owner_node_addr = object (
    method_members "quick_debug"
    ++ write_string "params" ∷ chart_params chart_name agent_id owner_node_addr)

-- JsonDebugger::HeartBeat
unfoldable pub heart_beat : List Token
heart_beat = object (method_members "heart_beat")

unfoldable pub serialize_infos : List ChartInfo → List Token
serialize_infos [] = []
serialize_infos (ci ∷ cis) = serialize_chart_info ci ++ serialize_infos cis

-- JsonDebugger::GetChartList, of the charts that Manager::GetDebugChartList found.
unfoldable pub get_chart_list : List ChartInfo → ℤ → List Token
get_chart_list v msg_id = object (
    method_members "get_chart_list"
    ++ (write_string "result" ∷ object (write_string "chart_info" ∷ array (serialize_infos v)))
    ++ id_member msg_id)

unfoldable pub write_nodes : List NodeData → List Token
write_nodes [] = []
write_nodes (n ∷ ns) =
    object (member_string "uid" n.node_uid ++ member_string "text" n.text) ++ write_nodes ns

-- The edges of a node to some of its children; `none` is a child that the chart does not have.
unfoldable pub write_edges : ChartData → String → List ℕ → Option (List Token)
write_edges cd parent [] = some []
write_edges cd parent (child ∷ children) = elim (get_elem? cd.node_list child) [
  | none ↦ none
  | some n ↦ elim (write_edges cd parent children) [
    | none ↦ none
    | some ts ↦
        some (object (member_string "parent" parent ++ member_string "child" n.node_uid) ++ ts)
  ]
]

unfoldable pub write_all_edges : ChartData → List NodeData → Option (List Token)
write_all_edges cd [] = some []
write_all_edges cd (n ∷ ns) = elim (write_edges cd n.node_uid (get_subsequence_ids n false)) [
  | none ↦ none
  | some f ↦ elim (write_edges cd n.node_uid (get_subsequence_ids n true)) [
    | none ↦ none
    | some s ↦ elim (write_all_edges cd ns) [ none ↦ none | some ts ↦ some (f ++ s ++ ts) ]
  ]
]

-- JsonDebugger::ChartDataToJson
unfoldable pub chart_data_to_json : ChartData → Option (List Token)
chart_data_to_json cd = elim (write_all_edges cd cd.node_list) [
  | none ↦ none
  | some edges ↦ some (
      object (
        (write_string "nodes" ∷ array (write_nodes cd.node_list))
        ++ write_string "edges" ∷ array edges))
]

-- JsonDebugger::ChartInitData
unfoldable pub chart_init_data : String → ChartData → ℤ → Option (List Token)
chart_init_data method cd msg_id = elim (chart_data_to_json cd) [
  | none ↦ none
  | some json ↦ some (
      object (
        method_members method
        ++ (write_string "result"
            ∷ object (member_string "chart_name" cd.chart_name ++ write_string "chart_data" ∷ json))
        ++ id_member msg_id))
]

-- JsonDebugger::PrepareChartDebugData, of the chart's name and uid and the data that it then clears.
-- The empty list is the empty string.
unfoldable pub prepare_chart_debug_data :
    String → ℤ → ℤ → String → List DebugData → Option (List Token)
prepare_chart_debug_data chart_name frame time uid [] = some []
prepare_chart_debug_data chart_name frame time uid (d ∷ ds) = elim (serialize_all (d ∷ ds)) [
  | none ↦ none
  | some running ↦ some (
      object (
        method_members "debug_chart"
        ++ write_string "params"
          ∷ object (
              member_string "chart_name" chart_name
              ++ member_int "frame" frame
              ++ member_int "time" time
              ++ member_string "chart_uid" uid
              ++ write_string "running_data" ∷ array running)))
]
