-- ===== src/Engine/Step.antt =====
-- Manager::Step (src/core/manager.cpp) and what it calls: the timers (src/core/timer_manager.cpp,
-- src/core/node_timer.cpp), the nodes that are ready to go on (src/core/async_manager.cpp), the queue
-- of events (include/core/event_queue.h) and the dying agents (include/core/dying_agents.h,
-- src/core/agent.cpp).
use asyncflow.Base.{
  ℕ, zero, suc, ◌+◌, String, Bool, true, false, Option, none, some, List, [], ◌∷◌, ◌==◌,
  if◌then◌else◌, ltb, length, reverse,
}
use asyncflow.Engine.State.{
  Ptr, r_true, detached, Timer, node_timer, agent_timer, WheelCall, cancel, advance, fired,
  AsyncEvent, World, modify_node, modify_agent, call_wheel, stuck_at,
}
use asyncflow.Engine.Containers.{set_container, active_pop}
use asyncflow.Engine.Lifecycle.{stop_node, delete_chart, set_attacher, charts_named}
use asyncflow.Engine.Agents.{start_agent_timer}
use asyncflow.Engine.Control.{remove_async_node}
use asyncflow.Engine.Run.Script.{Script}
use asyncflow.Engine.Run.Events.{event, handle_event}
use asyncflow.Engine.Run.Executor.{run_flow}

-- ~NodeLinkedList
unfoldable pub release_nodes : List Ptr → World → World
release_nodes [] w = w
release_nodes (p ∷ ps) w = release_nodes ps (set_container none p w)

unfoldable pub release_lists : List (ℕ × ℕ) → World → World
release_lists [] w = w
release_lists ((id, l) ∷ dict) w = release_lists dict (release_nodes (w.lists l) w)

-- The `while` loop of ~Agent over the charts with one name, from the last.
unfoldable pub delete_named : ℕ → Ptr → String → World → World
delete_named zero a name w = elim (charts_named a name w) [ [] ↦ w | _ ∷ _ ↦ stuck_at w ]
delete_named (suc k) a name w = elim (reverse (charts_named a name w)) [
  | [] ↦ w
  | c ∷ _ ↦ delete_named k a name (elim (w.charts c).owner_node [
    | none ↦ delete_chart c w
    | some p ↦ set_attacher detached p w
  ])
]

unfoldable pub delete_dict : Ptr → List (String × List Ptr) → World → World
delete_dict a [] w = w
delete_dict a ((name, cs) ∷ dict) w =
    delete_dict a dict (delete_named (length (charts_named a name w)) a name w)

-- ~Agent
unfoldable pub delete_agent : Ptr → World → World
delete_agent a w =
    let w1 =
      release_lists (w.agents a).waiting_nodes_dict (call_wheel (cancel (agent_timer a)) w) in
    let w2 = modify_agent a (λ x. record x { waiting_nodes_dict = [] }) w1 in
    delete_dict a (w2.agents a).chart_dict w2

unfoldable pub delete_agents : List Ptr → World → World
delete_agents [] w = w
delete_agents (a ∷ as') w = delete_agents as' (delete_agent a w)

-- DyingAgents::Step
unfoldable pub dying_step : World → World
dying_step w =
    let w1 = delete_agents w.destroying_agents w in
    record w1 { destroying_agents = w1.next_destroying_agents; next_destroying_agents = [] }

-- EventQueue::Switch
unfoldable pub switch : World → World
switch w = record w { in_event_list = w.out_event_list; out_event_list = w.in_event_list }

-- EventQueue::NextEvent
unfoldable pub next_event : World → World × Option AsyncEvent
next_event w = elim w.out_event_list [
  | [] ↦ (w, none)
  | ev ∷ evs ↦ (record w { out_event_list = evs }, some ev)
]

-- `due` is the timer that the wheel runs next, after the calls made so far.
module _ (behaviour : ℕ → ℕ → Script) (due : List WheelCall → Option Timer) where
  -- NodeTimer::execute and AgentTimer::execute
  unfoldable pub execute : Timer → World → World
  execute (node_timer p) w =
      (run_flow behaviour p (modify_node p (λ n. record n { result = r_true }) w)).0
  execute (agent_timer a) w = start_agent_timer a (
      if (w.agents a).is_destroying
      then w
      else (event (run_flow behaviour) w.tick_event (some a) 0 false false w).0)

  unfoldable pub fire_timers : ℕ → World → World
  fire_timers zero w = stuck_at w
  fire_timers (suc k) w = elim (due w.wheel) [
    | none ↦ w
    | some t ↦ fire_timers k (execute t (call_wheel (fired t) w))
  ]

  -- TimerManager::Step
  unfoldable pub timer_step : ℕ → ℕ → World → World
  timer_step fuel ms w = if ltb 0 ms then fire_timers fuel (call_wheel (advance ms) w) else w

  -- One round of AsyncManager::Step, for the node that was popped.
  unfoldable pub resume_node : Ptr → World → World
  resume_node p w =
      let flag = (w.nodes p).skip in
      let r = (w.nodes p).result in
      let w1 = modify_node p (λ n. record n { skip = flag; result = r }) (stop_node p w) in
      (run_flow behaviour p (remove_async_node p w1)).0

  -- AsyncManager::Step
  unfoldable pub async_step : ℕ → World → World
  async_step zero w = elim w.activate_nodes [ [] ↦ w | _ ∷ _ ↦ stuck_at w ]
  async_step (suc k) w = elim w.activate_nodes [
    | [] ↦ w
    | p ∷ _ ↦ async_step k (resume_node p (active_pop w).0)
  ]

  -- The loop of Manager::Step over the events.
  unfoldable pub event_loop : ℕ → World → World
  event_loop zero w = elim w.out_event_list [ [] ↦ w | _ ∷ _ ↦ stuck_at w ]
  event_loop (suc k) w = elim w.out_event_list [
    | [] ↦ w
    | ev ∷ _ ↦ event_loop k (handle_event (run_flow behaviour) ev (next_event w).0)
  ]

  -- Manager::Step; `none` is a negative argument, and the fuel is for each loop.
  unfoldable pub step : ℕ → Option ℕ → World → World
  step fuel milliseconds w =
      let ms : ℕ = elim milliseconds [ none ↦ w.default_time_interval | some n ↦ n ] in
      let w1 = timer_step fuel ms (record w { in_step = true }) in
      let w2 = async_step fuel w1 in
      let w3 = event_loop fuel (switch w2) in
      let w4 = dying_step w3 in record w4 { current_frame = w4.current_frame + 1; in_step = false }

  unfoldable pub steps : ℕ → List (Option ℕ) → World → World
  steps fuel [] w = w
  steps fuel (ms ∷ rest) w = steps fuel rest (step fuel ms w)

-- Manager::SetDefaulTimeInterval, of an argument that is not negative.
unfoldable pub set_default_time_interval : ℕ → World → World
set_default_time_interval interval w = record w {
  default_time_interval = if interval == 0 then 30 else interval;
}

unfoldable pub set_defer_mode : Bool → World → World
set_defer_mode b w = record w { defer_event = b }

unfoldable pub set_node_stop_when_error : Bool → World → World
set_node_stop_when_error b w = record w { node_stop_when_error = b }
