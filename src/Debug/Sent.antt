-- ===== src/Debug/Sent.antt =====
-- All messages that the debugger sends.
use asyncflow.Debug.Complete.{members}
use asyncflow.ChartData.{ChartData}
use asyncflow.Debug.Grammar.{
  IsText, object-IsValue, member-AreMembers, string-AreMembers, value-IsText, array-IsValue,
  int-AreMembers, uint64-AreMembers,
}
use asyncflow.Debug.Texts.{
  ChildrenIn, HasArgs, all_edges-WritesElements, reply-IsText, debug_list-WritesElements,
  request-IsText, nodes-AreElements, id-AreMembers, strings-AreElements, pairs-AreMembers,
  method-AreMembers, infos-AreElements,
}
use asyncflow.Debug.{Token, DebugData, ChartInfo}
use asyncflow.Debug.Messages.{
  prepare_chart_debug_data, error_reply, chart_init_data, chart_data_to_json, simple_reply_list,
  simple_reply_map, stop_message, gen_chart_info, heart_beat, get_chart_list, chart_params,
}
use asyncflow.Base.{◌≡◌, ◌∷◌, refl, some, ℕ, Option, List, String, ℤ, length, All}

pub data Message : Type 0 where
  error_message : ℤ → String → ℤ → Message
  list_message : String → List String → ℤ → Message
  map_message : String → List (String × String) → ℤ → Message
  stopped : String → Message
  quick_info : String → ℕ → ℕ → Message
  alive : Message
  chart_list : List ChartInfo → ℤ → Message
  init_data : String → ChartData → ℤ → Message
  running_data : String → ℤ → ℤ → String → DebugData → List DebugData → Message

abbrev pub write : Message → Option (List Token)
write (error_message code msg id) = some (error_reply code msg id)
write (list_message method result id) = some (simple_reply_list method result id)
write (map_message method result id) = some (simple_reply_map method result id)
write (stopped chart_name) = some (stop_message chart_name)
write (quick_info chart_name agent_id owner) = some (gen_chart_info chart_name agent_id owner)
write alive = some heart_beat
write (chart_list v id) = some (get_chart_list v id)
write (init_data method cd id) = chart_init_data method cd id
write (running_data chart_name frame time uid d ds) =
    prepare_chart_debug_data chart_name frame time uid (d ∷ ds)

-- The children of a chart's nodes are nodes of the chart, and the events have their arguments.
abbrev pub IsSound : Message → Type 0
IsSound (init_data method cd id) = ChildrenIn (length cd.node_list) cd.node_list
IsSound (running_data chart_name frame time uid d ds) = All HasArgs (d ∷ ds)
IsSound _ = Unit

abbrev pub WritesText : Option (List Token) → Type 0
WritesText o = (ts : List Token) × (o ≡ some ts) × IsText ts

init_data-WritesText :
    (method : String) (cd : ChartData) (id : ℤ)
    → ChildrenIn (length cd.node_list) cd.node_list
    → WritesText (chart_init_data method cd id)
unfolding chart_init_data chart_data_to_json
init_data-WritesText method cd id l =
    let (es, e, t) = all_edges-WritesElements cd cd.node_list l in
    (
      _,
      rw (e, chart_init_data, chart_data_to_json) refl,
      reply-IsText method "result" _ id (
          object-IsValue _ (
            members _ _ (string-AreMembers "chart_name" cd.chart_name) (
              member-AreMembers "chart_data" _ (
                object-IsValue _ (
                  members _ _
                    (member-AreMembers "nodes" _ (array-IsValue _ (nodes-AreElements cd.node_list)))
                    (member-AreMembers "edges" _ (array-IsValue es t))))))),
    )

running_data-WritesText :
    (chart_name : String) (frame time : ℤ) (uid : String) (d : DebugData) (ds : List DebugData)
    → All HasArgs (d ∷ ds)
    → WritesText (prepare_chart_debug_data chart_name frame time uid (d ∷ ds))
unfolding prepare_chart_debug_data
running_data-WritesText chart_name frame time uid d ds l =
    let (ts, e, t) = debug_list-WritesElements (d ∷ ds) l in
    (
      _,
      rw (e, prepare_chart_debug_data) refl,
      request-IsText "debug_chart" _ (
          member-AreMembers "params" _ (
            object-IsValue _ (
              members _ _ (string-AreMembers "chart_name" chart_name) (
                members _ _ (int-AreMembers "frame" frame) (
                  members _ _ (int-AreMembers "time" time) (
                    members _ _ (string-AreMembers "chart_uid" uid)
                      (member-AreMembers "running_data" _ (array-IsValue ts t)))))))),
    )

-- Every message that the debugger sends is written to its end, and what is written is one complete
-- JSON text, with a name before each value of an object and each bracket closed, provided that the
-- children of the nodes of a chart that is sent are nodes of the chart, and that an event that is
-- sent has as many arguments as it says.
pub write-IsText : (m : Message) → IsSound m → WritesText (write m)
unfolding error_reply simple_reply_list simple_reply_map stop_message gen_chart_info chart_params
    heart_beat get_chart_list
write-IsText (error_message code msg id) l = (
  _,
  refl,
  value-IsText _ (
      object-IsValue _ (
        members _ _
          (member-AreMembers "error" _ (
            object-IsValue _
              (members _ _ (int-AreMembers "code" code) (string-AreMembers "message" msg))))
          (id-AreMembers id))),
)
write-IsText (list_message method result id) l =
    (_, refl, reply-IsText method "result" _ id (array-IsValue _ (strings-AreElements result)))
write-IsText (map_message method result id) l =
    (_, refl, reply-IsText method "result" _ id (object-IsValue _ (pairs-AreMembers result)))
write-IsText (stopped chart_name) l = (
  _,
  refl,
  request-IsText "stop_chart" _
      (member-AreMembers "params" _ (object-IsValue _ (string-AreMembers "chart_name" chart_name))),
)
write-IsText (quick_info chart_name agent_id owner) l = (
  _,
  refl,
  request-IsText "quick_debug" _ (
      member-AreMembers "params" _ (
        object-IsValue _ (
          members _ _ (string-AreMembers "chart_name" chart_name) (
            members _ _ (uint64-AreMembers "agent_id" agent_id)
              (uint64-AreMembers "owner_node_addr" owner))))),
)
write-IsText alive l = (_, refl, value-IsText _ (object-IsValue _ (method-AreMembers "heart_beat")))
write-IsText (chart_list v id) l = (
  _,
  refl,
  reply-IsText "get_chart_list" "result" _ id
      (object-IsValue _ (member-AreMembers "chart_info" _ (array-IsValue _ (infos-AreElements v)))),
)
write-IsText (init_data method cd id) l = init_data-WritesText method cd id l
write-IsText (running_data chart_name frame time uid d ds) l =
    running_data-WritesText chart_name frame time uid d ds l
