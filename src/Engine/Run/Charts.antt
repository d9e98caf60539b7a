-- ===== src/Engine/Run/Charts.antt =====
-- Chart::Return (src/core/chart.cpp), Agent::StartChart and Agent::Start (src/core/agent.cpp), the
-- subcharts of src/core/manager.cpp and StackExecutor::ContinueFlow (include/core/executor.h), over
-- Manager::RunFlow, the parameter `flow`.
use text.Mathlib.Text.{◌==◌ as str_eq}
use asyncflow.Base.{
  ◌-◌, String, Bool, true, false, not, Option, none, some, List, [], ◌∷◌, ◌==◌, ◌&&◌, if◌then◌else◌,
  ◌+◌, ◌||◌, suc, ℕ, zero, length,
}
use asyncflow.ChartData.{}
use asyncflow.Engine.State.{
  Ptr, running, r_true, detached, subchart, Attacher, executor, World, modify_node, modify_chart,
  fault_at,
}
use asyncflow.Engine.Containers.{push}
use asyncflow.Engine.Lifecycle
use asyncflow.Engine.Lifecycle.{
  data_of_chart, data_of_node, same_owner, set_attacher, stop_chart, find_chart, charts_named,
  chart_name,
}
use asyncflow.Engine.Agents.{wait_event, get_chart_data, create_chart, add_chart}
use asyncflow.Engine.Control.{to_result, get_current_node, get_node}
use asyncflow.Engine.Run.Events.{event}

abbrev pub returned_node : Bool → Ptr → World → World
returned_node result p w =
    modify_node p (λ n. record n { result = to_result result; skip = true; run_flag = false }) w

abbrev pub started_node : Bool → Ptr → World → World
started_node skip p w =
    modify_node p (λ n. record n { skip = skip; result = r_true; status = running }) w

unfoldable pub new_subchart : Ptr → Ptr → Ptr → World → World × Ptr
new_subchart a p cd w =
    let r = create_chart cd (some p) w in
    (set_attacher (subchart r.1) p (add_chart a r.1 (some p) r.0).0, r.1)

-- The chart that Manager::Subchart starts: the previous one if agent and data are the same.
unfoldable pub choose_subchart : Ptr → Ptr → Ptr → Attacher → World → World × Option Ptr
choose_subchart a p cd detached w = let r = new_subchart a p cd w in (r.0, some r.1)
choose_subchart a p cd (subchart c) w =
    if same_owner (w.charts c).agent (some a) && ((w.charts c).data_ == cd)
    then (w, some c)
    else let r = new_subchart a p cd (set_attacher detached p w) in (r.0, some r.1)
choose_subchart a p cd _ w = (fault_at w, none)

-- Whether one of the `n` charts from `p` on has the name and is of the agent, or of none any more.
unfoldable pub created_of : Ptr → String → ℕ → Ptr → World → Bool
created_of a name zero p w = false
created_of a name (suc n) p w =
    (str_eq (chart_name p w) name
      && (same_owner (w.charts p).agent (some a) || same_owner (w.charts p).agent none))
    || created_of a name n (p + 1) w

-- Whether the iterators of Agent::Start, over the map and over the vector of a name, are valid after
-- the nodes of a chart ran, from `w` to `w'`: a new name may rehash the map, a chart that comes or
-- goes may move the vector. A name is never erased.
unfoldable pub iterators_kept : Ptr → String → World → World → Bool
iterators_kept a name w w' =
    (length (w.agents a).chart_dict == length (w'.agents a).chart_dict)
    && ((length (charts_named a name w) == length (charts_named a name w'))
        && not (created_of a name (w'.next_chart - w.next_chart) w.next_chart w'))

module _ (flow : Ptr → World → World × Bool) where
  -- StackExecutor::ContinueFlow and DfsExecutor::ContinueFlow
  unfoldable pub continue_flow : Ptr → World → World × Bool
  continue_flow p w =
      if not (w.current_index == 0)
        && same_owner (w.executors (w.current_index - 1)).current_node (some p)
      then (
        push (executor (w.current_index - 1)) p
            (modify_node p (λ n. record n { run_flag = true }) w),
        true,
      )
      else flow p w

  -- The part of Chart::Return for a chart with an owner.
  unfoldable pub resume_owner : Ptr → Bool → World → World
  resume_owner p result w =
      let r = continue_flow p (returned_node result p (Lifecycle.stop_node p w)) in
      if r.1 then r.0 else elim ((r.0).charts ((r.0).nodes p).chart).agent [
        | none ↦ fault_at r.0
        | some a ↦
            (event flow (r.0).start_event (some a) 0 true false
              (wait_event a p (r.0).start_event r.0)).0
      ]

  -- Chart::Return
  unfoldable pub chart_return : Ptr → Bool → World → World
  chart_return c result w = elim (w.charts c).owner_node [
    | none ↦ stop_chart c w
    | some p ↦ stop_chart c (resume_owner p result w)
  ]

  unfoldable pub wait_start : Ptr → Ptr → World → World
  wait_start a p w =
      (event flow w.start_event (some a) 0 false false (wait_event a p w.start_event w)).0

  -- The end of Agent::StartChart: run the start node now, or by the start event if `sync` is false or
  -- the stack is full.
  unfoldable pub launch : Ptr → Ptr → Bool → World → World
  launch a p false w = wait_start a p w
  launch a p true w = let r = flow p w in if r.1 then r.0 else wait_start a p r.0

  -- Agent::StartChart of a chart.
  unfoldable pub start_chart : Ptr → Ptr → Bool → World → World × Bool
  start_chart a c sync w = if (w.charts c).is_running then (w, false) else elim (get_node c 0 w) [
    | none ↦ (fault_at w, false)
    | some p ↦
        let skip = str_eq (data_of_chart c w).start_func_name "" in
        let w1 = started_node skip p (modify_chart c (λ x. record x { is_running = true }) w) in
        (launch a p sync w1, true)
  ]

  -- Agent::StartChart by name.
  unfoldable pub start_chart_named : Ptr → String → World → World × Bool
  start_chart_named a name w = elim (find_chart a name none w) [
    | none ↦ (w, false)
    | some c ↦
        if (w.charts c).is_running
        then (w, false)
        else ((start_chart a c (not w.defer_event) w).0, true)
  ]

  unfoldable pub start_if_stopped : Ptr → Ptr → World → World
  start_if_stopped a c w =
      if same_owner (w.charts c).owner_node none && not (w.charts c).is_running
      then (start_chart a c (not w.defer_event) w).0
      else w

  -- The loop of Agent::Start over the vector of a name, and whether it came to its end.
  unfoldable pub start_charts : Ptr → String → List Ptr → World → World × Bool
  start_charts a name [] w = (w, true)
  start_charts a name (c ∷ cs) w =
      let w1 = start_if_stopped a c w in
      elim (iterators_kept a name w w1) [
        | false ↦ (fault_at w1, false)
        | true ↦ start_charts a name cs w1
      ]

  -- The loop over the names. Each vector is read when the loop comes to it.
  unfoldable pub start_dict : Ptr → List (String × List Ptr) → World → World
  start_dict a [] w = w
  start_dict a ((name, _) ∷ dict) w =
      let r = start_charts a name (charts_named a name w) w in
      elim r.1 [ false ↦ r.0 | true ↦ start_dict a dict r.0 ]

  -- Agent::Start, without the count that it returns.
  unfoldable pub start_agent : Ptr → World → World
  start_agent a w = start_dict a (w.agents a).chart_dict w

  -- Manager::Subchart
  unfoldable pub call_subchart : String → Option Ptr → World → World × Bool
  call_subchart name none w = (w, false)
  call_subchart name (some a) w = elim (get_current_node w) [
    | none ↦ (fault_at w, false)
    | some p ↦ elim (get_chart_data name w) [
      | none ↦ (w, false)
      | some cd ↦
          let r = choose_subchart a p cd (w.nodes p).attacher w in
          elim r.1 [
            | none ↦ (r.0, false)
            | some c ↦ (
              (start_chart a c true (modify_node p (λ n. record n { status = running }) r.0)).0,
              true,
            )
          ]
    ]
  ]

  -- The return node of a chart: the bindings pass the call to the chart of the current node.
  unfoldable pub return_current : Bool → World → World
  return_current result w = elim (get_current_node w) [
    | none ↦ fault_at w
    | some p ↦ chart_return (w.nodes p).chart result w
  ]
