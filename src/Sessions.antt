-- ===== src/Sessions.antt =====
-- The connections that debug a chart: WebsocketManager (src/debug/websocket_manager.cpp) and the
-- debug part of Chart (include/core/chart.h, src/core/chart.cpp). The network is a parameter.
use asyncflow.Engine.Lifecycle.{data_of_node}
use asyncflow.Debug.Sent.{Message}
use asyncflow.Engine.State.{NodeStatus, World, idle, running, end_run}
use asyncflow.Debug.{DebugData, node_message, node_status}
use text.Mathlib.Text.{◌==◌ as str_eq}
use asyncflow.Base.{
  ◌+◌, ◌∷◌, ◌++◌, ◌==◌, [], if◌then◌else◌, ℕ, true, false, List, some, none, String, Option, Bool,
  find_name, update, lookup, ℤ, delete, insert, get_elem?, to_int, put_name, pos,
}
pub mod Debugged
pub mod Kept
pub mod Ended
pub mod Operations
pub mod Calls

-- The debug members of a Chart. The count is that of the data ever sent.
pub record ChartDebug : Type 0 where
  pub debug : Bool
  pub debug_data_list : List DebugData
  pub debug_data_count : ℕ

-- A connection is a number. `quick_debug` is the flag of each ChartData, and `sent` lists what each
-- connection was sent, the latest first.
pub record Sessions : Type 0 where
  pub chart_map : List (ℕ × List ℕ)
  pub quick_debug_map : List (String × List ℕ)
  pub charts : ℕ → ChartDebug
  pub quick_debug : ℕ → Bool
  pub sent : List (ℕ × Message)

abbrev pub no_sessions : Sessions
no_sessions = record {
  chart_map = [];
  quick_debug_map = [];
  charts = λ c. record { debug = false; debug_data_list = []; debug_data_count = 0 };
  quick_debug = λ d. false;
  sent = [];
}

abbrev pub modify_debug : ℕ → (ChartDebug → ChartDebug) → Sessions → Sessions
modify_debug c f s = record s { charts = update s.charts c (f (s.charts c)) }

-- Chart::StartDebug, StopDebug, ClearDebugData
unfoldable pub start_debug : ℕ → Sessions → Sessions
start_debug c s = modify_debug c (λ d. record d { debug = true }) s

unfoldable pub clear_debug_data : ℕ → Sessions → Sessions
clear_debug_data c s = modify_debug c (λ d. record d { debug_data_list = [] }) s

unfoldable pub stop_debug : ℕ → Sessions → Sessions
stop_debug c s = clear_debug_data c (modify_debug c (λ d. record d { debug = false }) s)

-- A status that is pushed to the list of a chart, with the next number.
abbrev pub push_status : ℕ → ℤ → String → ℤ → ℤ → Bool → Sessions → Sessions
push_status c id uid old new result s =
    modify_debug c
      (λ d. record d {
        debug_data_list =
            d.debug_data_list
            ++ node_status (record {
              id = to_int d.debug_data_count;
              node_id = id;
              node_uid = uid;
              old_status = old;
              new_status = new;
              result = result;
            })
              ∷ [];
        debug_data_count = d.debug_data_count + 1;
      })
      s

-- Node::Status as a number.
abbrev pub status_number : NodeStatus → ℕ
status_number idle = 0
status_number running = 1
status_number end_run = 2

-- Chart::SendNodeStatus
unfoldable pub send_node_status :
    ℕ → ℕ → String → NodeStatus → NodeStatus → Bool → Sessions → Sessions
send_node_status c id uid old new result s =
    if status_number old == status_number new
    then s
    else push_status c (to_int id) uid (pos (status_number old)) (pos (status_number new)) result s

-- Chart::SendNodeMessage
unfoldable pub send_node_message : ℕ → ℕ → String → String → Sessions → Sessions
send_node_message c id uid msg s =
    modify_debug c
      (λ d. record d {
        debug_data_list =
            d.debug_data_list
            ++ node_message (record {
              id = to_int d.debug_data_count;
              node_id = to_int id;
              node_uid = uid;
              message = msg;
            })
              ∷ [];
        debug_data_count = d.debug_data_count + 1;
      })
      s

-- The uid of the data of a node.
abbrev pub uid_of : World → ℕ → String
uid_of w p = (data_of_node p w).node_uid

-- Chart::SendAllNodeCount
unfoldable pub send_all_node_count : World → ℕ → List ℕ → Sessions → Sessions
send_all_node_count w c [] s = s
send_all_node_count w c (p ∷ ps) s = send_all_node_count w c ps (
    push_status c (to_int (w.nodes p).id) (uid_of w p) (to_int ((w.nodes p).true_count + 1024))
      (to_int ((w.nodes p).false_count + 1024)) true s)

-- The loop over the nodes that run, in StartDebugChart.
unfoldable pub send_running : World → ℕ → List ℕ → Sessions → Sessions
send_running w c [] s = s
send_running w c (p ∷ ps) s = send_running w c ps (elim (w.nodes p).status [
  | running ↦ send_node_status c (data_of_node p w).node_id (uid_of w p) idle running true s
  | _ ↦ s
])

abbrev pub delete_name : String → List (String × List ℕ) → List (String × List ℕ)
delete_name k [] = []
delete_name k ((j, v) ∷ m) = if str_eq j k then delete_name k m else (j, v) ∷ delete_name k m

abbrev pub insert_if_new : ℕ → List ℕ → List (ℕ × List ℕ) → List (ℕ × List ℕ)
insert_if_new c hs m = elim (lookup c m) [ none ↦ insert c hs m | some _ ↦ m ]

abbrev pub connections : ℕ → Sessions → List ℕ
connections c s = elim (lookup c s.chart_map) [ none ↦ [] | some hs ↦ hs ]

abbrev pub set_connections : ℕ → List ℕ → Sessions → Sessions
set_connections c hs s = record s { chart_map = insert c hs s.chart_map }

abbrev pub erase_chart : ℕ → Sessions → Sessions
erase_chart c s = record s { chart_map = delete c s.chart_map }

abbrev pub quick_connections : String → Sessions → List ℕ
quick_connections name s = elim (find_name name s.quick_debug_map) [ none ↦ [] | some hs ↦ hs ]

-- `lock` gives the object of a weak pointer, and `throws` tells which connections fail.
module _ (lock : ℕ → ℕ) (throws : ℕ → Bool) where
  unfoldable pub contains_hdl : List ℕ → ℕ → Bool
  contains_hdl [] hdl = false
  contains_hdl (h ∷ hs) hdl = if lock h == lock hdl then true else contains_hdl hs hdl

  -- The first one goes.
  unfoldable pub remove_hdl : List ℕ → ℕ → List ℕ
  remove_hdl [] hdl = []
  remove_hdl (h ∷ hs) hdl = if lock h == lock hdl then hs else h ∷ remove_hdl hs hdl

  -- WebsocketManager::StartDebugChart, of a chart that is not null.
  unfoldable pub start_debug_chart : World → ℕ → ℕ → Sessions → Sessions
  start_debug_chart w c hdl s =
      let hs = connections c s in
      let s1 = set_connections c hs s in
      if contains_hdl hs hdl
      then s1
      else send_running w c (w.charts c).node_list (
          send_all_node_count w c (w.charts c).node_list
            (start_debug c (set_connections c (hs ++ hdl ∷ []) s1)))

  -- WebsocketManager::QuickDebugChart
  unfoldable pub quick_debug_chart : World → ℕ → ℕ → Sessions → Sessions
  quick_debug_chart w d hdl s =
      let name = (w.chart_datas d).chart_name in
      let hs = quick_connections name s in
      let s1 = record s { quick_debug_map = put_name name hs s.quick_debug_map } in
      if contains_hdl hs hdl then s1 else record s1 {
        quick_debug_map = put_name name (hs ++ hdl ∷ []) s1.quick_debug_map;
        quick_debug = update s1.quick_debug d true;
      }

  -- A connection that failed leaves the chart, and the last one ends its debugging.
  unfoldable pub drop_connection : ℕ → ℕ → Sessions → Sessions
  drop_connection c hdl s =
      let hs = remove_hdl (connections c s) hdl in
      elim hs [
        | [] ↦ erase_chart c (stop_debug c (set_connections c [] s))
        | h ∷ hs' ↦ set_connections c (h ∷ hs') s
      ]

  -- The loop of StartQuickDebug.
  unfoldable pub send_quick : Message → ℕ → List ℕ → Sessions → Sessions
  send_quick msg c [] s = s
  send_quick msg c (h ∷ hs) s =
      send_quick msg c hs
        (if throws h then drop_connection c h s else record s { sent = (h, msg) ∷ s.sent })

  -- WebsocketManager::StartQuickDebug, with the message of JsonDebugger::ChartInfo. `chart_map_`
  -- keeps an entry that is there.
  unfoldable pub start_quick_debug : World → Message → ℕ → Sessions → Sessions
  start_quick_debug w msg c s =
      let name = (w.chart_datas (w.charts c).data_).chart_name in
      elim (find_name name s.quick_debug_map) [
        | none ↦ s
        | some hs ↦
            let s1 = start_debug c s in
            let s2 =
              send_quick msg c hs (record s1 { chart_map = insert_if_new c hs s1.chart_map }) in
            record s2 { quick_debug_map = delete_name name s2.quick_debug_map }
      ]

  -- WebsocketManager::SendStopData, with the data of a chart or none, and the message of its stop.
  unfoldable pub send_stop_data : Option Message → Message → List ℕ → Sessions → Sessions
  send_stop_data msg stop [] s = s
  send_stop_data msg stop (h ∷ hs) s = send_stop_data msg stop hs (
      if throws h then s else elim msg [
        | none ↦ record s { sent = (h, stop) ∷ s.sent }
        | some m ↦ record s { sent = (h, stop) ∷ (h, m) ∷ s.sent }
      ])

  -- WebsocketManager::StopDebugChart of a chart that is not null. PrepareChartDebugData clears the
  -- data of the chart.
  unfoldable pub stop_debug_chart : Option Message → Message → ℕ → Sessions → Sessions
  stop_debug_chart msg stop c s = elim (lookup c s.chart_map) [
    | none ↦ stop_debug c s
    | some hs ↦ erase_chart c (stop_debug c (send_stop_data msg stop hs (clear_debug_data c s)))
  ]

  -- WebsocketManager::StopDebugChart of a chart that is not null, for one connection.
  unfoldable pub stop_connection : ℕ → ℕ → Sessions → Sessions
  stop_connection c hdl s = elim (lookup c s.chart_map) [
    | none ↦ s
    | some hs ↦
        if contains_hdl hs hdl
        then elim (remove_hdl hs hdl) [
          | [] ↦ erase_chart c (stop_debug c (set_connections c [] s))
          | h ∷ hs' ↦ set_connections c (h ∷ hs') s
        ]
        else s
  ]

  -- The sends of WebsocketManager::Step for a chart. They give back an error code and do not throw.
  unfoldable pub send_data : Message → List ℕ → Sessions → Sessions
  send_data msg [] s = s
  send_data msg (h ∷ hs) s =
      send_data msg hs (if throws h then s else record s { sent = (h, msg) ∷ s.sent })

  -- The loop of WebsocketManager::Step over the charts, with the data of each as a message.
  unfoldable pub step_charts :
      (ℕ → DebugData → List DebugData → Message) → List (ℕ × List ℕ) → Sessions → Sessions
  step_charts data_of [] s = s
  step_charts data_of ((c, hs) ∷ rest) s =
      step_charts data_of rest (elim (s.charts c).debug_data_list [
        | [] ↦ s
        | d ∷ ds ↦ send_data (data_of c d ds) hs (clear_debug_data c s)
      ])

  unfoldable pub step : (ℕ → DebugData → List DebugData → Message) → Sessions → Sessions
  step data_of s = step_charts data_of s.chart_map s

  -- What the destructor of a chart does for the debugger.
  unfoldable pub delete_debug : World → Option Message → Message → ℕ → Sessions → Sessions
  delete_debug w msg stop c s = clear_debug_data c (
      if (s.charts c).debug
      then elim (w.charts c).agent [ none ↦ s | some a ↦ stop_debug_chart msg stop c s ]
      else s)

  -- The debugger's part of Agent::StartChart.
  unfoldable pub started_chart : World → Message → ℕ → Sessions → Sessions
  started_chart w msg c s =
      let d = (w.charts c).data_ in
      if s.quick_debug d
      then record (start_quick_debug w msg c s) {
        quick_debug = update (start_quick_debug w msg c s).quick_debug d false;
      }
      else s

  -- The debugger's part of DfsExecutor::RunFlow, for a chart that has come to its end: a subchart
  -- is debugged as long as the chart of its owner is.
  unfoldable pub ended_chart : World → Option Message → Message → ℕ → Sessions → Sessions
  ended_chart w msg stop c s = elim (w.charts c).owner_node [
    | none ↦ if (s.charts c).debug then stop_debug_chart msg stop c s else s
    | some p ↦ if (s.charts (w.nodes p).chart).debug then s else stop_debug_chart msg stop c s
  ]
