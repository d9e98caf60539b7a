-- ===== src/Engine/Agents/Defs.antt =====
-- The agents' charts and waiting lists (src/core/agent.cpp, include/core/agent_manager.h), the
-- creation of charts (src/core/chart.cpp), the table of chart data (src/core/manager.cpp), the
-- timers of agents (src/core/timer_manager.cpp) and the dying agents (include/core/dying_agents.h).
use asyncflow.Base.{
  ℕ, ◌+◌, String, Bool, true, false, Option, none, some, List, [], ◌∷◌, ◌++◌, if◌then◌else◌, update,
  lookup, insert, delete, find_name, put_name, length, get_elem?, leb, ◌==◌,
}
use asyncflow.ChartData.{NodeData}
use asyncflow.Engine.State.{
  Ptr, running, linked, new_chart, new_node, new_agent, World, modify_node, modify_chart,
  modify_agent, call_wheel, schedule, cancel, agent_timer, default_agent_tick,
}
use asyncflow.Engine.Containers.{push}
use asyncflow.Engine.Lifecycle.{
  stop_chart, delete_chart, find_chart, find_owner, charts_named, chart_name,
}

-- EventManager::GetEventArgsCount; `none` is -1.
unfoldable pub get_event_args_count : ℕ → World → Option ℕ
get_event_args_count id w = get_elem? w.event_info_list id

-- The list that Agent::GetWaitNodes looks up.
unfoldable pub find_wait_nodes : Ptr → ℕ → World → Option ℕ
find_wait_nodes a id w =
    if leb (length w.event_info_list) id then none else lookup id (w.agents a).waiting_nodes_dict

-- A new list for an event, at the end of Agent::GetWaitNodes.
unfoldable pub create_wait_nodes : Ptr → ℕ → World → World
create_wait_nodes a id w =
    modify_agent a
      (λ x. record x { waiting_nodes_dict = insert id w.next_list x.waiting_nodes_dict })
      (record w { next_list = w.next_list + 1 })

-- Agent::GetWaitNodes
unfoldable pub get_wait_nodes : Ptr → ℕ → Bool → World → World × Option ℕ
get_wait_nodes a id create w =
    if leb (length w.event_info_list) id
    then (w, none)
    else elim (lookup id (w.agents a).waiting_nodes_dict) [
      | some l ↦ (w, some l)
      | none ↦ if create then (create_wait_nodes a id w, some w.next_list) else (w, none)
    ]

-- Agent::WaitEvent
unfoldable pub wait_event : Ptr → Ptr → ℕ → World → World
wait_event a p id w =
    let r = get_wait_nodes a id true w in
    elim r.1 [
      | none ↦ r.0
      | some l ↦ modify_node p (λ n. record n { status = running }) (push (linked l) p r.0)
    ]

-- Manager::GetChartData
unfoldable pub get_chart_data : String → World → Option Ptr
get_chart_data name w = find_name name w.chart_data_dict

-- The nodes that Chart::Init creates, from index `i` on.
unfoldable pub create_nodes : Ptr → ℕ → List NodeData → World → World × List Ptr
create_nodes c i [] w = (w, [])
create_nodes c i (d ∷ ds) w =
    let p = w.next_node in
    let r =
      create_nodes c (i + 1) ds
        (record w { nodes = update w.nodes p (new_node c i d.node_id); next_node = p + 1 }) in
    (r.0, p ∷ r.1)

-- CreateChart and Chart::Init. The chart takes its pointer before its nodes do.
unfoldable pub create_chart : Ptr → Option Ptr → World → World × Ptr
create_chart cd owner w =
    let c = w.next_chart in
    let r = create_nodes c 0 (w.chart_datas cd).node_list (record w { next_chart = c + 1 }) in
    (
      modify_chart c (λ x. record new_chart { owner_node = owner; data_ = cd; node_list = r.1 })
          r.0,
      c,
    )

-- Agent::AddChart, of a chart that is not null.
unfoldable pub add_chart : Ptr → Ptr → Option Ptr → World → World × Bool
add_chart a c owner w =
    let name = chart_name c w in
    let cs = charts_named a name w in
    elim (find_owner owner cs w) [
      | some _ ↦ (w, false)
      | none ↦ (
        modify_chart c (λ x. record x { agent = some a })
            (modify_agent a
              (λ x. record x { chart_dict = put_name name (cs ++ c ∷ []) x.chart_dict }) w),
        true,
      )
    ]

-- Agent::AttachChart
unfoldable pub attach_chart_data : Ptr → Ptr → World → World × Option Ptr
attach_chart_data a cd w =
    let r = create_chart cd none w in
    let s = add_chart a r.1 none r.0 in
    if s.1 then (s.0, some r.1) else (delete_chart r.1 s.0, none)

-- Manager::AttachChart
unfoldable pub attach_chart : Ptr → String → World → World × Option Ptr
attach_chart a name w = elim (get_chart_data name w) [
  | none ↦ (w, none)
  | some cd ↦ attach_chart_data a cd w
]

-- Agent::RemoveChart
unfoldable pub remove_chart : Ptr → String → World → World × Bool
remove_chart a name w = elim (find_chart a name none w) [
  | none ↦ (w, false)
  | some c ↦ (delete_chart c w, true)
]

-- Agent::StopChart
unfoldable pub stop_chart_named : Ptr → String → World → World × Bool
stop_chart_named a name w = elim (find_chart a name none w) [
  | none ↦ (w, false)
  | some c ↦ (stop_chart c w, true)
]

unfoldable pub stop_charts : List Ptr → World → World
stop_charts [] w = w
stop_charts (c ∷ cs) w = stop_charts cs (stop_chart c w)

unfoldable pub stop_dict : List (String × List Ptr) → World → World
stop_dict [] w = w
stop_dict ((name, cs) ∷ dict) w = stop_dict dict (stop_charts cs w)

-- Agent::Stop. The order of an `unordered_map` is not specified; this is the order of insertion.
unfoldable pub stop_agent : Ptr → World → World
stop_agent a w = stop_dict (w.agents a).chart_dict w

-- AgentTimer::Start, with no delay.
unfoldable pub start_agent_timer : Ptr → World → World
start_agent_timer a w = call_wheel (schedule (agent_timer a) (w.agents a).tick_interval) w

-- Agent::SetTickInterval
unfoldable pub set_tick_interval : Ptr → ℕ → World → World
set_tick_interval a tick w =
    let w1 = modify_agent a (λ x. record x { tick_interval = tick }) w in
    if (w1.agents a).is_destroying
    then w1
    else start_agent_timer a (call_wheel (cancel (agent_timer a)) w1)

-- BasicAgentManager::GetAgentById
unfoldable pub get_agent_by_id : ℕ → World → Option Ptr
get_agent_by_id id w = lookup id w.agent_map

-- AgentManager::GetAgent
unfoldable pub get_agent : ℕ → World → Option Ptr
get_agent game_object w = lookup game_object w.gameobject_map

-- The constructor of Agent.
unfoldable pub create_agent : ℕ → World → World × Ptr
create_agent game_object w =
    let a = w.next_agent in
    (
      start_agent_timer a
          (record w { agents = update w.agents a (new_agent game_object); next_agent = a + 1 }),
      a,
    )

-- BasicAgentManager::AddAgent, with GenAgentId.
unfoldable pub add_agent : Ptr → World → World
add_agent a w =
    let id = w.agent_id_count + 1 in
    record (modify_agent a (λ x. record x { id = id }) w) {
      agent_id_count = id;
      agent_map = insert id a w.agent_map;
    }

-- AgentManager::Register
unfoldable pub register_agent : ℕ → World → World × Ptr
register_agent game_object w = elim (get_agent game_object w) [
  | some a ↦ (w, a)
  | none ↦
      let r = create_agent game_object w in
      let w1 = record (r.0) { gameobject_map = insert game_object r.1 w.gameobject_map } in
      (add_agent r.1 w1, r.1)
]

-- RegisterGameObject of the bindings; a registered object gives null.
unfoldable pub register_game_object : ℕ → ℕ → World → World × Option Ptr
register_game_object game_object tick w = elim (get_agent game_object w) [
  | some _ ↦ (w, none)
  | none ↦
      let r = register_agent game_object w in
      let interval = if tick == 0 then default_agent_tick else tick in
      (set_tick_interval r.1 interval r.0, some r.1)
]

-- AgentManager::UnRegister, of an agent that is not null.
unfoldable pub unregister_agent : Ptr → World → World
unregister_agent a w = record w {
  agent_map = delete (w.agents a).id w.agent_map;
  gameobject_map = delete (w.agents a).game_object w.gameobject_map;
}

-- DyingAgents::AddDyingAgent
unfoldable pub add_dying_agent : Ptr → World → World
add_dying_agent a w =
    if w.in_step
    then record w { next_destroying_agents = w.next_destroying_agents ++ a ∷ [] }
    else record w { destroying_agents = w.destroying_agents ++ a ∷ [] }

-- Manager::UnregisterGameObject
unfoldable pub unregister_game_object : Option Ptr → World → World × Bool
unregister_game_object none w = (w, false)
unregister_game_object (some a) w = if (w.agents a).is_destroying then (w, true) else (
  add_dying_agent a (
      unregister_agent a
        (stop_agent a (modify_agent a (λ x. record x { is_destroying = true }) w))),
  true,
)
