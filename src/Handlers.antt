-- ===== src/Handlers.antt =====
-- The requests to the debugger: HandleMessage and the handlers of src/debug/json_debugger.cpp,
-- Debugger::FindChart (src/debug/debugger.cpp), and Manager::GetDebugChartList and GetChartsByName
-- (src/core/manager.cpp). A request is what the code reads of the document, and an address is 0 for
-- a null pointer.
use text.Mathlib.Text.{◌==◌ as str_eq}
use asyncflow.Debug.Infos.{new_chart_info}
use asyncflow.Engine.Lifecycle.{charts_named, find_chart, chart_name, data_of_chart}
use asyncflow.Sessions.{Sessions, start_debug_chart, stop_connection, uid_of, quick_debug_chart}
use asyncflow.Engine.Agents.Defs.{get_agent_by_id, get_chart_data}
use asyncflow.Debug.{c_str, Token, ChartInfo, write_string, write_uint64, write_int}
use asyncflow.Debug.Sent.{Message, quick_info, error_message, init_data, map_message, chart_list}
use asyncflow.Engine.State.{World}
use asyncflow.Base.{
  ◌+◌, Option, suc, zero, List, String, ℕ, some, Bool, none, ◌⊎◌, ◌∷◌, ◌++◌, [], if◌then◌else◌, inl,
  inr, ℤ, find_name, negsuc, to_int, pos, true,
}
pub mod Answered
pub mod Breakpoints
pub mod Dispatch
pub mod Continued
use Prim.Native.String.{◌++◌ as str_append}

-- `id` is -1 if the document has none.
pub record Request : Type 0 where
  pub has_jsonrpc : Bool
  pub id : ℤ
  pub method : Option String
  pub params : Option (List (String × Token))

abbrev pub address : Option ℕ → ℕ
address none = 0
address (some p) = suc p

abbrev pub at_address : ℕ → Option ℕ
at_address zero = none
at_address (suc p) = some p

-- `params[name].GetString()`, whose text ends at the first null, and `GetUint64()`; `none` is
-- undefined.
unfoldable pub param_string : String → Option (List (String × Token)) → Option String
param_string name none = none
param_string name (some params) = elim (find_name name params) [
  | some (write_string s) ↦ some (c_str s)
  | _ ↦ none
]

unfoldable pub param_uint64 : String → Option (List (String × Token)) → Option ℕ
param_uint64 name none = none
param_uint64 name (some params) = elim (find_name name params) [
  | some (write_uint64 n) ↦ some n
  | some (write_int (pos n)) ↦ some n
  | _ ↦ none
]

-- A DebugChartInfo.
pub record DebugChartInfo : Type 0 where
  pub agent_id : ℕ
  pub owner_node : Option ℕ
  pub chart_name : String

-- GetDebugChartInfoFromJson
unfoldable pub get_debug_chart_info : Option (List (String × Token)) → Option DebugChartInfo
get_debug_chart_info params = elim (param_string "chart_name" params) [
  | none ↦ none
  | some name ↦ elim (param_uint64 "agent_id" params) [
    | none ↦ none
    | some id ↦ elim (param_uint64 "owner_node_addr" params) [
      | none ↦ none
      | some addr ↦ some (record { agent_id = id; owner_node = at_address addr; chart_name = name })
    ]
  ]
]

-- The charts of a name of the agents, in the order of the agents: Manager::GetChartsByName.
unfoldable pub charts_of : String → List (ℕ × ℕ) → World → List ℕ
charts_of name [] w = []
charts_of name ((id, a) ∷ agents) w = charts_named a name w ++ charts_of name agents w

unfoldable pub get_charts_by_name : String → World → List ℕ
get_charts_by_name name w = charts_of name w.agent_map w

-- JsonDebugger::GenChartInfo of a chart; `none` is a chart without an agent.
unfoldable pub chart_info_message : ℕ → World → Option Message
chart_info_message c w = elim (w.charts c).agent [
  | none ↦ none
  | some a ↦ some (quick_info (chart_name c w) (w.agents a).id (address (w.charts c).owner_node))
]

-- `to_string` is std::to_string, `contains` tells if one text is found in another, and `agent_name`
-- gives the name that the bindings make for an agent;
-- `chart_uid` is the uuid of each chart.
module _ (lock : ℕ → ℕ) (throws : ℕ → Bool) (to_string : ℕ → String)
    (contains : String → String → Bool) (agent_name chart_uid : ℕ → String) where
  -- WebsocketManager::SendReply
  unfoldable pub send_reply : ℕ → Message → Sessions → Sessions
  send_reply hdl msg s = if throws hdl then s else record s { sent = (hdl, msg) ∷ s.sent }

  -- Debugger::FindChart: the chart, or what is wrong.
  unfoldable pub find_debug_chart : DebugChartInfo → World → String ⊎ ℕ
  find_debug_chart info w = elim (get_agent_by_id info.agent_id w) [
    | none ↦ inl (str_append (str_append "agent_id " (to_string info.agent_id)) " not exist")
    | some a ↦ elim (find_chart a info.chart_name info.owner_node w) [
      | none ↦ inl (str_append (str_append "chart_name " info.chart_name) " does not exist")
      | some c ↦ inr c
    ]
  ]

  abbrev pub reply_error : ℕ → ℤ → String → ℤ → Sessions → Sessions
  reply_error hdl code text id s = send_reply hdl (error_message code text id) s

  -- DebugChartHandler, StopChartHandler, of the chart that is asked for.
  unfoldable pub debug_chart_handler :
      World → Option (List (String × Token)) → ℕ → ℤ → Sessions → Option Sessions
  debug_chart_handler w params hdl id s = elim (get_debug_chart_info params) [
    | none ↦ none
    | some info ↦ elim (find_debug_chart info w) [
      | inl text ↦ some (reply_error hdl (negsuc 0) text id s)
      | inr c ↦ some (
          start_debug_chart lock throws w c hdl
            (send_reply hdl (init_data "debug_chart" (data_of_chart c w) id) s))
    ]
  ]

  unfoldable pub stop_chart_handler :
      World → Option (List (String × Token)) → ℕ → ℤ → Sessions → Option Sessions
  stop_chart_handler w params hdl id s = elim (get_debug_chart_info params) [
    | none ↦ none
    | some info ↦ elim (find_debug_chart info w) [
      | inl text ↦ some (reply_error hdl (negsuc 0) text id s)
      | inr c ↦ some (
          stop_connection lock throws c hdl
            (send_reply hdl (map_message "stop_chart" (("chart_name", info.chart_name) ∷ []) id) s))
    ]
  ]

  -- QuickDebugHandler: the first chart of the name, or the data of the charts to come.
  unfoldable pub quick_chart : World → ℕ → ℕ → ℤ → Sessions → Option Sessions
  quick_chart w c hdl id s = elim (chart_info_message c w) [
    | none ↦ none
    | some info ↦ some (
        start_debug_chart lock throws w c hdl
          (send_reply hdl info (send_reply hdl (init_data "quick_debug" (data_of_chart c w) id) s)))
  ]

  unfoldable pub quick_data : World → String → ℕ → ℤ → Sessions → Sessions
  quick_data w name hdl id s = elim (get_chart_data name w) [
    | none ↦ reply_error hdl (negsuc 9) "The chart is not exist in chart_data" id s
    | some d ↦
        send_reply hdl (init_data "quick_debug" (w.chart_datas d) id)
          (quick_debug_chart lock throws w d hdl s)
  ]

  unfoldable pub quick_debug_handler :
      World → Option (List (String × Token)) → ℕ → ℤ → Sessions → Option Sessions
  quick_debug_handler w params hdl id s = elim (param_string "chart_name" params) [
    | none ↦ none
    | some name ↦ elim (get_charts_by_name name w) [
      | [] ↦ some (quick_data w name hdl id s)
      | c ∷ cs ↦ quick_chart w c hdl id s
    ]
  ]

  -- The entry of a chart in Manager::GetDebugChartList.
  unfoldable pub debug_entry : ℕ → String → ℕ → World → ChartInfo
  debug_entry a name c w =
      let entry = record new_chart_info {
        agent_id = (w.agents a).id;
        owner_node_addr = address (w.charts c).owner_node;
        object_name = agent_name a;
        chart_name = name;
        chart_uid = chart_uid c;
      } in
      elim (w.charts c).owner_node [
        | none ↦ record entry {
          owner_node_id = negsuc 0;
          owner_node_uid = "";
          owner_chart_name = "";
        }
        | some p ↦ record entry {
          owner_node_id = to_int (w.nodes p).id;
          owner_node_uid = uid_of w p;
          owner_chart_name = chart_name (w.nodes p).chart w;
        }
      ]

  unfoldable pub list_charts : ℕ → String → List ℕ → World → List ChartInfo
  list_charts a name [] w = []
  list_charts a name (c ∷ cs) w = debug_entry a name c w ∷ list_charts a name cs w

  -- A filter that is empty lets all pass.
  abbrev pub passes : String → String → Bool
  passes filter name = if str_eq filter "" then true else contains name filter

  unfoldable pub list_dict : ℕ → String → List (String × List ℕ) → World → List ChartInfo
  list_dict a filter [] w = []
  list_dict a filter ((name, cs) ∷ dict) w =
      if passes filter name
      then list_charts a name cs w ++ list_dict a filter dict w
      else list_dict a filter dict w

  unfoldable pub list_agents : String → String → List (ℕ × ℕ) → World → List ChartInfo
  list_agents object_name chart_name [] w = []
  list_agents object_name chart_name ((id, a) ∷ agents) w =
      if passes object_name (agent_name a)
      then list_dict a chart_name (w.agents a).chart_dict w
        ++ list_agents object_name chart_name agents w
      else list_agents object_name chart_name agents w

  -- Manager::GetDebugChartList
  unfoldable pub get_debug_chart_list : String → String → World → List ChartInfo
  get_debug_chart_list object_name chart_name w = list_agents object_name chart_name w.agent_map w

  -- GetChartListHandler
  unfoldable pub get_chart_list_handler :
      World → Option (List (String × Token)) → ℕ → ℤ → Sessions → Option Sessions
  get_chart_list_handler w params hdl id s = elim (param_string "chart_name" params) [
    | none ↦ none
    | some chart ↦ elim (param_string "obj_name" params) [
      | none ↦ none
      | some obj ↦ some (send_reply hdl (chart_list (get_debug_chart_list obj chart w) id) s)
    ]
  ]
