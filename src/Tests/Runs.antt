-- ===== src/Tests/Runs.antt =====
-- The theorems on the engine at the states of the small chart.
use asyncflow.Base.{
  ◌+◌, ◌≢◌, ◌⊎◌, ◌↔◌, String, mem, arith, ℕ, ◌≡◌, refl, true, false, Option, none, some, List, [],
  ◌∷◌, ◌==◌, if◌then◌else◌,
}
use asyncflow.Engine.State.{
  new_manager, AsyncEvent, Ptr, idle, async_active, World, new_node, subchart, running, new_chart,
}
use asyncflow.Engine.Lifecycle.{chart_name, stop_chart, find_chart}
use asyncflow.Engine.Control.{continue_async_node}
use asyncflow.Engine.Step.{switch, step}
use asyncflow.Engine.WaitAll.{init_ids, run_wait_all}
use asyncflow.Engine.Reach.{flow_ids}
use asyncflow.Engine.Agents.{
  add_chart, get_agent_by_id, get_agent, register_agent, unregister_agent,
}
use asyncflow.Engine.Run.Events.{add_event}
use asyncflow.Engine.Run.Executor.{run_flow}
use asyncflow.Engine.Run.Queue.{post, take_events, take_events-post}
use asyncflow.Engine.Frame.Core.{core}
use asyncflow.Engine.Frame.Executor.{core-run_flow}
use asyncflow.Engine.Frame.Step.{core-step}
use asyncflow.Engine.Reach.Search.{Flows}
use asyncflow.Engine.Reach.Flow.{flow_ids-Flows}
use asyncflow.Engine.WaitAll.Barrier.{arrivals, marked_by, run_wait_all-arrivals}
use asyncflow.Engine.Agents.Registry.{
  IsRegistry, new_manager-IsRegistry, register_agent_lem, unregister_agent_lem,
}
use asyncflow.Engine.Agents.Charts.{add_chart_lem}
use asyncflow.Engine.Lifecycle.Calms.{subchart_of}
use asyncflow.Engine.Lifecycle.Idle.{Under, IsOrdered, IsStopped, stop_chart-idle}
use asyncflow.Engine.Control.Contexts.{continue_async_node-once}
use asyncflow.Tests.Demo.{
  demo, started, stepped, registered, started-current_index, registered-IsRegistry,
  registered-gameobject_map, started-owner_node,
}

core-run_flow_example : core (run_flow demo 0 started).0 ≡ core started
core-run_flow_example = core-run_flow demo 0 started (let e = started-current_index in ground arith)

core-step_example :
    core (step demo (λ c. none) 10 (some 30) started)
    ≡ record (core started) { current_frame = started.current_frame + 1; in_step = false }
core-step_example = core-step demo (λ c. none) 10 (some 30) started started-current_index

-- Three nodes: 0 leads to 1, and 1 to itself on failure.
abbrev next_on_success : ℕ → List ℕ
next_on_success n = if n == 0 then 1 ∷ [] else []

abbrev next_on_fail : ℕ → List ℕ
next_on_fail n = if n == 1 then 1 ∷ [] else []

flow_ids-Flows_example :
    (r : List ℕ) × (flow_ids next_on_success next_on_fail (λ i. i) 3 (0 ∷ 7 ∷ []) [] ≡ some r)
    × ((x : ℕ) → (mem x r ≡ true) ↔ Flows next_on_success next_on_fail (λ i. i) 3 (0 ∷ 7 ∷ []) x)
flow_ids-Flows_example =
    flow_ids-Flows next_on_success next_on_fail 3 (λ x h. ground arith) (λ i. i) (0 ∷ 7 ∷ [])

run_wait_all-arrivals_example :
    (arrivals (1 ∷ []) (init_ids (1 ∷ 2 ∷ [])) ≡ marked_by (1 ∷ []) (init_ids (1 ∷ 2 ∷ [])))
    × (run_wait_all (some 2) (arrivals (1 ∷ []) (init_ids (1 ∷ 2 ∷ [])))
        ≡ (init_ids (1 ∷ 2 ∷ []), true))
run_wait_all-arrivals_example = run_wait_all-arrivals (1 ∷ 2 ∷ []) (1 ∷ []) 2 refl

register_agent_example :
    let r = register_agent 77 new_manager in
    IsRegistry r.0
    × (get_agent 77 r.0 ≡ some r.1)
    × (get_agent_by_id ((r.0).agents r.1).id r.0 ≡ some r.1)
    × ((a : ℕ) → get_agent 77 new_manager ≡ some a → r ≡ (new_manager, a))
    × ((q a : ℕ) → get_agent q new_manager ≡ some a → get_agent q r.0 ≡ some a)
    × ((id a : ℕ) → get_agent_by_id id new_manager ≡ some a → get_agent_by_id id r.0 ≡ some a)
register_agent_example = register_agent_lem 77 new_manager new_manager-IsRegistry

unregister_agent_example :
    let w' = unregister_agent 0 registered in
    IsRegistry w'
    × (get_agent (registered.agents 0).game_object w' ≡ none)
    × (get_agent_by_id (registered.agents 0).id w' ≡ none)
    × ((q : ℕ) → q ≢ (registered.agents 0).game_object → get_agent q w' ≡ get_agent q registered)
    × ((id : ℕ)
        → id ≢ (registered.agents 0).id
        → get_agent_by_id id w' ≡ get_agent_by_id id registered)
unregister_agent_example =
    unregister_agent_lem 0 registered registered-IsRegistry registered-gameobject_map

-- A chart 0 with a node 1 whose subchart 1 has a node 2, all running.
abbrev nested : World
nested = record new_manager {
  nodes = λ p. elim (p == 1) [
    | true ↦ record (new_node 0 1 1) { attacher = subchart 1; status = running }
    | false ↦ record (new_node 1 0 0) { status = running }
  ];
  charts = λ c. elim (c == 0) [
    | true ↦ record new_chart { node_list = 1 ∷ []; is_running = true }
    | false ↦ record new_chart {
      node_list = if c == 1 then 2 ∷ [] else [];
      is_running = true;
      owner_node = some 1;
    }
  ];
  next_chart = 2;
}

nested-IsOrdered : IsOrdered 2 nested
unfolding IsOrdered
nested-IsOrdered c p e m s = (ground arith, ground arith)

stop_chart-idle_example :
    let w' = stop_chart 0 nested in
    ((d : Ptr) → Under nested 0 d → IsStopped nested w' d)
    × (w'.stuck ≡ nested.stuck)
    × ((d : Ptr) → (w'.charts d).node_list ≡ (nested.charts d).node_list)
    × ((q : Ptr) → subchart_of (w'.nodes q).attacher ≡ subchart_of (nested.nodes q).attacher)
    × ((q : Ptr) → ((w'.nodes q).status ≡ idle) ⊎ ((w'.nodes q).status ≡ (nested.nodes q).status))
stop_chart-idle_example = stop_chart-idle 0 nested (omega arith) nested-IsOrdered

continue_async_node-once_example :
    let r = continue_async_node 1 stepped in
    (r.1 ≡ mem 1 stepped.nodes_set)
    × (continue_async_node 1 r.0 ≡ (r.0, false))
    × (mem 1 stepped.nodes_set ≡ false → r.0 ≡ stepped)
    × (mem 1 stepped.nodes_set ≡ true
        → (((r.0).nodes 1).container ≡ some async_active)
          × (((r.0).nodes 1).skip ≡ true)
          × (mem 1 (r.0).activate_nodes ≡ true)
          × (mem 1 (r.0).waiting_nodes ≡ false))
continue_async_node-once_example = continue_async_node-once 1 stepped

add_chart_example :
    let name = chart_name 0 started in
    let r = add_chart 0 0 none started in
    ((d : Ptr) → find_chart 0 name none started ≡ some d → r ≡ (started, false))
    × (find_chart 0 name none started ≡ none
        → (r.1 ≡ true)
          × (((r.0).charts 0).agent ≡ some 0)
          × (find_chart 0 name none r.0 ≡ some 0)
          × ((q : Option Ptr) (d : Ptr)
              → find_chart 0 name q started ≡ some d
              → find_chart 0 name q r.0 ≡ some d)
          × ((n : String) (q : Option Ptr)
              → n ≢ name
              → find_chart 0 n q r.0 ≡ find_chart 0 n q started))
add_chart_example = add_chart_lem 0 0 none started started-owner_node

abbrev raised : ℕ → AsyncEvent
raised id = record { id = id; arg_count = 0; agent_id = 1 }

new_manager-in_event_list : new_manager.in_event_list ≡ []
unfolding new_manager
new_manager-in_event_list = refl

take_events-post_example :
    let w' = add_event (raised 5) true (switch (post (raised 3 ∷ raised 4 ∷ []) new_manager)) in
    (take_events 4 w' ≡ some (raised 5) ∷ some (raised 3) ∷ some (raised 4) ∷ none ∷ [])
    × (w'.in_event_list ≡ new_manager.out_event_list)
take_events-post_example =
    take_events-post (raised 3 ∷ raised 4 ∷ []) (raised 5) new_manager new_manager-in_event_list
