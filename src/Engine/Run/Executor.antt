-- ===== src/Engine/Run/Executor.antt =====
-- The executors: DfsExecutor (src/core/executor.cpp) and StackExecutor (include/core/executor.h). An
-- executor runs nodes, and these may run others through Manager::RunFlow, on the next executor of
-- the stack.
use asyncflow.Base.{
  ℕ, zero, suc, ◌+◌, Bool, true, false, not, none, some, List, [], ◌∷◌, ◌&&◌, ◌||◌, if◌then◌else◌,
  leb, reverse,
}
use asyncflow.ChartData.{get_subsequence_ids}
use asyncflow.Engine.State.{
  Ptr, NodeStatus, idle, running, end_run, NodeResult, r_true, executor, World, modify_node,
  modify_chart, modify_executor, fault_at, overrun_at, max_nodes_per_execution, max_stack_size,
}
use asyncflow.Engine.Containers.{push, executor_pop, in_executor}
use asyncflow.Engine.Lifecycle
use asyncflow.Engine.Lifecycle.{
  data_of_chart, data_of_node, same_owner, set_attacher, stop_chart, find_chart,
}
use asyncflow.Engine.Agents.{wait_event}
use asyncflow.Engine.Control.{get_node}
use asyncflow.Engine.Run.Script.{Script}
use asyncflow.Engine.Run.Charts.{chart_return}
use asyncflow.Engine.Run.Nodes.{not_stop, run_node}

-- The `while` loop of DfsExecutor::AddSubsequenceNodes, over the ids from the last to the first.
unfoldable pub push_children : ℕ → Ptr → ℕ → List ℕ → World → World
push_children i c from_id [] w = w
push_children i c from_id (id ∷ ids) w =
    let w1 = push_children i c from_id ids w in
    elim (get_node c id w1) [
      | none ↦ fault_at w1
      | some child ↦
          push (executor i) child
            (modify_node child (λ n. record n { pre_node_id = some from_id }) w1)
    ]

unfoldable pub count_result : NodeResult → Ptr → World → World
count_result r_true p w = modify_node p (λ n. record n { true_count = n.true_count + 1 }) w
count_result _ p w = modify_node p (λ n. record n { false_count = n.false_count + 1 }) w

abbrev pub is_true : NodeResult → Bool
is_true r_true = true
is_true _ = false

-- DfsExecutor::AddSubsequenceNodes
unfoldable pub add_subsequence_nodes : ℕ → Ptr → World → World
add_subsequence_nodes i p w =
    if not_stop (w.nodes p).result
    then push_children i (w.nodes p).chart (w.nodes p).id
        (get_subsequence_ids (data_of_node p w) (is_true (w.nodes p).result))
        (count_result (w.nodes p).result p w)
    else w

abbrev pub is_running : NodeStatus → Bool
is_running running = true
is_running _ = false

unfoldable pub after_run : ℕ → Ptr → World → World × Bool
after_run i p w =
    let w1 = if in_executor i p w then (executor_pop i w).0 else w in
    if is_running (w1.nodes p).status
    then (modify_node p (λ n. record n { run_flag = false }) w1, true)
    else (add_subsequence_nodes i p (modify_node p (λ n. record n { status = end_run }) w1), false)

-- What is left when the limit on nodes is met: each is popped, and has ended.
unfoldable pub drain_executor : ℕ → List Ptr → World → World
drain_executor i [] w = w
drain_executor i (p ∷ ps) w =
    drain_executor i ps (modify_node p (λ n. record n { status = end_run }) (executor_pop i w).0)

abbrev pub is_end_run : NodeStatus → Bool
is_end_run end_run = true
is_end_run _ = false

-- The nodes that ran are restored; those that ended are stopped.
unfoldable pub restore_nodes : List Ptr → World → World
restore_nodes [] w = w
restore_nodes (p ∷ ps) w =
    let w1 = modify_node p (λ n. record n { run_flag = false }) w in
    restore_nodes ps (if is_end_run (w1.nodes p).status then Lifecycle.stop_node p w1 else w1)

-- Chart::CheckRunning
unfoldable pub any_running : List Ptr → World → Bool
any_running [] w = false
any_running (p ∷ ps) w = is_running (w.nodes p).status || any_running ps w

abbrev pub clear_current : ℕ → World → World
clear_current i w =
    modify_executor i (λ e. record e { current_node = none; current_agent = none }) w

-- The end of a chart that has no running node.
module _ (flow : Ptr → World → World × Bool) where
  unfoldable pub finish_chart : Ptr → Bool → World → World
  finish_chart c has_running w =
      if not has_running && not (any_running (w.charts c).node_list w) && (w.charts c).is_running
      then modify_chart c (λ x. record x { is_running = false }) (chart_return flow c true w)
      else w

module _ (behaviour : ℕ → ℕ → Script) (flow : Ptr → World → World × Bool) where
  -- One round of the loop of DfsExecutor::RunFlow at the top node; true if a node is left running.
  unfoldable pub dfs_round : ℕ → Ptr → World → World × Bool
  dfs_round i p w =
      if is_running (w.nodes p).status && not (w.nodes p).is_wait_all
      then ((executor_pop i w).0, true)
      else if (w.nodes p).run_flag && not (data_of_node p w).is_no_loop_check
      then elim (w.executors i).current_agent [
        | none ↦ (fault_at w, true)
        | some a ↦ (wait_event a p w.tick_event w, true)
      ]
      else after_run i p (
          run_node behaviour flow p (modify_executor i (λ e. record e { current_node = some p }) w))

  -- The loop, on the rounds that are left before the limit.
  unfoldable pub dfs_loop : ℕ → ℕ → Ptr → Bool → World → World × Bool
  dfs_loop zero i c has_running w = elim (w.executors i).node_list [
    | [] ↦ (w, has_running)
    | p ∷ ps ↦ (if (w.charts c).is_running then drain_executor i (p ∷ ps) w else w, has_running)
  ]
  dfs_loop (suc rounds) i c has_running w = elim (w.executors i).node_list [
    | [] ↦ (w, has_running)
    | p ∷ _ ↦ elim (w.charts c).is_running [
      | false ↦ (w, has_running)
      | true ↦ let r = dfs_round i p w in dfs_loop rounds i c (r.1 || has_running) r.0
    ]
  ]

  unfoldable pub dfs_run : ℕ → Ptr → Ptr → Ptr → World → World
  dfs_run i p a c w =
      let w1 = modify_node p (λ n. record n { status = idle }) w in
      let w2 = modify_executor i (λ e. record e { node_list = [] }) w1 in
      let r = dfs_loop max_nodes_per_execution i c false (push (executor i) p w2) in
      let w3 = restore_nodes (reverse ((r.0).executors i).history_nodes) r.0 in
      let w4 = modify_executor i (λ e. record e { history_nodes = [] }) w3 in
      clear_current i (finish_chart flow c r.1 w4)

  -- DfsExecutor::RunFlow of the `i`-th executor.
  unfoldable pub dfs_run_flow : ℕ → Ptr → World → World
  dfs_run_flow i p w = elim (w.charts (w.nodes p).chart).agent [
    | none ↦ fault_at w
    | some a ↦
        let w1 = modify_executor i (λ e. record e { current_agent = some a }) w in
        if (w.agents a).is_destroying || not (w.charts (w.nodes p).chart).is_running
        then w1
        else dfs_run i p a (w.nodes p).chart w1
  ]

  -- StackExecutor::RunFlow
  unfoldable pub stack_run_flow : Ptr → World → World × Bool
  stack_run_flow p w =
      if leb max_stack_size (w.current_index + 1)
      then (w, false)
      else let w1 =
          dfs_run_flow (w.current_index + 1) p (record w { current_index = w.current_index + 1 }) in
        (record w1 { current_index = w.current_index }, true)

-- The nesting of StackExecutor::RunFlow. The fuel is the number of levels left; it is used up only
-- if the stack overflows, which the code tests first.
unfoldable pub run_flow_fuel : ℕ → (ℕ → ℕ → Script) → Ptr → World → World × Bool
run_flow_fuel zero behaviour p w = (overrun_at w, false)
run_flow_fuel (suc k) behaviour p w = stack_run_flow behaviour (run_flow_fuel k behaviour) p w

-- Manager::RunFlow
unfoldable pub run_flow : (ℕ → ℕ → Script) → Ptr → World → World × Bool
run_flow behaviour p w = run_flow_fuel max_stack_size behaviour p w
