-- ===== src/Tests/Debugging.antt =====
-- The theorems on the debugger, at two charts and two connections.
use asyncflow.Sessions.{no_sessions}
use asyncflow.Engine.State.{World, modify_chart, new_manager}
use asyncflow.Debug.Sent.{WritesText, alive, write, init_data, stopped, write-IsText}
use asyncflow.Debug.Infos.{
  deserialize_chart_info, read_object, new_chart_info, serialize-deserialize,
}
use asyncflow.Debug.{c_str, ChartInfo, serialize_chart_info}
use asyncflow.ChartData.{NodeData, ChartData, get_subsequence_ids, new_chart_data, new_node_data}
use asyncflow.Sessions.Calls.{
  SessionCall, answer, call_quick, answer_all, call_debug, call_deleted, call_step, call_started,
  answer_all-IsConsistent, deleted-entry, call_stop, no_sessions-IsConsistent,
}
use asyncflow.Sessions.Debugged.{IsConsistent}
use asyncflow.Base.{
  ◌+◌, ◌-◌, ◌^◌, ◌≡◌, ◌∷◌, ◌==◌, [], refl, false, none, Bool, List, arith, ℕ, lookup, pos, some,
}

abbrev debugged_node : NodeData
debugged_node = record (new_node_data 0) { node_uid = "a"; on_success = 0 ∷ [] }

abbrev debugged_chart : ChartData
debugged_chart = record new_chart_data { chart_name = "main"; node_list = debugged_node ∷ [] }

write-IsText_example : WritesText (write (init_data "debug_chart" debugged_chart (pos 3)))
unfolding get_subsequence_ids
write-IsText_example =
    write-IsText (init_data "debug_chart" debugged_chart (pos 3)) (tt, (omega arith, tt), tt)

-- An agent's id within its bound, and an address that is not.
abbrev some_chart : ChartInfo
some_chart = record {
  agent_id = 7;
  owner_node_addr = 2 ^ 63 + 16;
  owner_node_id = pos 3;
  owner_node_uid = "a";
  object_name = "npc";
  chart_name = "main";
  owner_chart_name = "top";
  chart_uid = "b";
}

serialize-deserialize_example :
    deserialize_chart_info (read_object (serialize_chart_info some_chart)) new_chart_info
    ≡ record some_chart { owner_node_addr = 2 ^ 64 - 1; chart_uid = "" }
unfolding c_str
serialize-deserialize_example = serialize-deserialize some_chart refl

-- A connection 1 that works and 2 that fails; a chart 0 that both debug, and its end.
abbrev works : ℕ → Bool
works hdl = hdl == 2

abbrev stopped_calls : List SessionCall
stopped_calls =
    call_quick new_manager 0 2
    ∷ call_debug new_manager 0 1
    ∷ call_step
    ∷ call_started new_manager 0
    ∷ call_stop 0 1
    ∷ []

answer_all-IsConsistent_example : IsConsistent (
    answer_all
      (λ h. h)
      works
      (λ c d ds. alive)
      (λ c. alive)
      (λ c. stopped "main")
      stopped_calls
      no_sessions)
answer_all-IsConsistent_example =
    answer_all-IsConsistent (λ h. h) works (λ c d ds. alive) (λ c. alive) (λ c. stopped "main")
      stopped_calls no_sessions no_sessions-IsConsistent

-- The chart 0 with an agent.
abbrev attached : World
attached = modify_chart 0 (λ c. record c { agent = some 0 }) new_manager

deleted-entry_example :
    (lookup 0
        (answer
          (λ h. h)
          works
          (λ c d ds. alive)
          (λ c. alive)
          (λ c. stopped "main")
          (call_deleted attached 0)
          (answer_all
            (λ h. h)
            works
            (λ c d ds. alive)
            (λ c. alive)
            (λ c. stopped "main")
            (call_debug attached 0 1 ∷ [])
            no_sessions)).chart_map
      ≡ none)
    × (((answer
            (λ h. h)
            works
            (λ c d ds. alive)
            (λ c. alive)
            (λ c. stopped "main")
            (call_deleted attached 0)
            (answer_all
              (λ h. h)
              works
              (λ c d ds. alive)
              (λ c. alive)
              (λ c. stopped "main")
              (call_debug attached 0 1 ∷ [])
              no_sessions)).charts
          0).debug
        ≡ false)
deleted-entry_example =
    deleted-entry (λ h. h) works (λ c d ds. alive) (λ c. alive) (λ c. stopped "main")
      (call_debug attached 0 1 ∷ []) attached 0 0 refl
