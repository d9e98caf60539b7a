-- ===== src/Tests/Requests.antt =====
-- The theorems on requests to the debugger, at one agent with one chart.
use asyncflow.Handlers.Continued.{continue_nodes, continue_nodes_lem}
use asyncflow.Handlers.Answered.{debug-stop}
use asyncflow.ChartData.{new_chart_data}
use asyncflow.Debug.Messages.{chart_params}
use asyncflow.Debug.Infos.{read_object}
use asyncflow.Engine.State.{World, new_manager, new_agent, new_chart, new_node, async_waiting}
use asyncflow.Engine.Lifecycle.{
  find_chart, find_owner, chart_name, charts_named, data_of_chart, same_owner,
}
use asyncflow.Sessions.Calls.{no_sessions-IsConsistent}
use asyncflow.Sessions.{contains_hdl, connections, no_sessions, Sessions}
use asyncflow.Handlers.Breakpoints.{
  IsMarked, Refused, BreakEvent, commanded, patched, patched_nodes, events, no_breakpoints,
  events-IsMarked,
}
use asyncflow.Handlers.{debug_chart_handler, stop_chart_handler}
use asyncflow.Debug.{Token, c_str}
use asyncflow.Engine.Agents.Defs.{get_agent_by_id}
use asyncflow.Base.{
  ◌≡◌, ◌∷◌, [], String, Option, Bool, ℕ, false, true, some, List, none, refl, pos, lookup,
  find_name, ◌⊎◌, ◌==◌, mem, All,
}

abbrev one_chart : World
one_chart = record new_manager {
  agents = λ a. record (new_agent 0) { id = 5; chart_dict = ("main", 3 ∷ []) ∷ [] };
  charts = λ c. record new_chart { agent = some 0 };
  agent_map = (5, 0) ∷ [];
  chart_datas = λ d. record new_chart_data { chart_name = "main" };
}

one_agent : get_agent_by_id 5 one_chart ≡ some 0
unfolding get_agent_by_id lookup new_manager
one_agent = refl

one_found : find_chart 0 "main" none one_chart ≡ some 3
unfolding find_chart find_owner charts_named same_owner find_name new_manager
one_found = refl

abbrev one_params : Option (List (String × Token))
one_params = some (read_object (chart_params "main" 5 0))

abbrev all_work : ℕ → Bool
all_work hdl = false

no_connection : contains_hdl (λ h. h) all_work (connections 3 no_sessions) 1 ≡ false
unfolding contains_hdl lookup
no_connection = refl

debug-stop_example :
    (s1 : Sessions) × (s2 : Sessions) × (debug_chart_handler
        (λ h. h)
        all_work
        (λ n. "5")
        (λ s t. true)
        (λ a. "npc")
        (λ c. "u")
        one_chart
        one_params
        1
        (pos 1)
        no_sessions
      ≡ some s1)
    × (stop_chart_handler
          (λ h. h)
          all_work
          (λ n. "5")
          (λ s t. true)
          (λ a. "npc")
          (λ c. "u")
          one_chart
          one_params
          1
          (pos 2)
          s1
        ≡ some s2)
    × ((s1.charts 3).debug ≡ true)
    × (connections 3 s1 ≡ 1 ∷ [])
    × (lookup 3 s2.chart_map ≡ none)
    × ((s2.charts 3).debug ≡ false)
unfolding chart_name data_of_chart lookup c_str
debug-stop_example =
    debug-stop (λ h. h) all_work (λ n. "5") (λ s t. true) (λ a. "npc") (λ c. "u") one_chart 0 3 1
      (pos 1) (pos 2) no_sessions one_agent one_found no_connection no_sessions-IsConsistent refl

-- A patch between the setting and the deletion of a breakpoint.
abbrev patched_between : List BreakEvent
patched_between = commanded (true, 0) ∷ patched 0 ∷ commanded (false, 0) ∷ commanded (true, 1) ∷ []

events-IsMarked_example :
    IsMarked (patched_nodes patched_between) (events patched_between no_breakpoints).0
    × All (Refused (patched_nodes patched_between)) (events patched_between no_breakpoints).1
events-IsMarked_example = events-IsMarked patched_between

-- The nodes 1 and 2 wait.
abbrev two_waiting : World
two_waiting = record one_chart {
  nodes = λ p. record (new_node 0 0 0) { container = some async_waiting };
  waiting_nodes = 1 ∷ 2 ∷ [];
}

continue_nodes_example :
    (continue_nodes (λ p. p == 2) (1 ∷ 2 ∷ []) two_waiting ≡ some two_waiting
      × All (λ p. (p == 2) ≡ false) (1 ∷ 2 ∷ []))
    ⊎ (continue_nodes (λ p. p == 2) (1 ∷ 2 ∷ []) two_waiting ≡ none
        × ((p : ℕ) × (mem p (1 ∷ 2 ∷ []) ≡ true) × ((p == 2) ≡ true)))
continue_nodes_example =
    continue_nodes_lem (λ p. p == 2) (1 ∷ 2 ∷ []) two_waiting (refl, (refl, tt))
