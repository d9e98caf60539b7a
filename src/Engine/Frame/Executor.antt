-- ===== src/Engine/Frame/Executor.antt =====
-- The core of the manager (Frame/Core) under the operations of src/core/executor.cpp.
use asyncflow.Base.{
  ℕ, zero, suc, ◌+◌, ◌≤◌, ◌<◌, Bool, true, false, not, ◌&&◌, ◌||◌, ◌≡◌, refl, ap, ◌∙◌, some, List,
  [], ◌∷◌, arith, inl, inr, Option-cases, Bool-cases, lt_of_not_leb, List-cases, leb, reverse,
}
use asyncflow.ChartData.{get_subsequence_ids}
use asyncflow.Engine.State.{
  Ptr, World, NodeResult, r_true, idle, end_run, executor, modify_node, modify_executor,
  max_nodes_per_execution, max_stack_size,
}
use asyncflow.Engine.Containers.{push, executor_pop}
use asyncflow.Engine.Lifecycle.{data_of_node}
use asyncflow.Engine.Control.{get_node}
use asyncflow.Engine.Run.Script.{Script}
use asyncflow.Engine.Frame.Core.{Core, core, core-push, core-executor_pop}
use asyncflow.Engine.Frame.Lifecycle.{core-stop_node}
use asyncflow.Engine.Frame.Agents.{core-wait_event}
use asyncflow.Engine.Lifecycle.{stop_node as stop}
use asyncflow.Engine.Run.Nodes.{run_node, not_stop}
use asyncflow.Engine.Run.Executor.{
  push_children, count_result, is_true, add_subsequence_nodes, is_running, after_run,
  drain_executor, is_end_run, restore_nodes, any_running, finish_chart, dfs_round, dfs_loop,
  dfs_run, dfs_run_flow, stack_run_flow, run_flow_fuel, run_flow,
}
use asyncflow.Engine.Frame.Events.{index-core}
use asyncflow.Engine.Frame.Charts.{core-chart_return}
use asyncflow.Engine.Frame.Nodes.{core-run_node}

core-push_children :
    (j : ℕ) (c : Ptr) (from_id : ℕ) (ids : List ℕ) (w : World)
    → core (push_children j c from_id ids w) ≡ core w
unfolding core push_children
core-push_children j c from_id [] w = refl
core-push_children j c from_id (id ∷ ids) w =
    let w1 = push_children j c from_id ids w in
    let e : core w1 ≡ core w = core-push_children j c from_id ids w in
    elim (Option-cases (get_node c id w1)) [
      | inl f ↦ rw (f, push_children) e
      | inr (child, f) ↦
          rw (f, push_children)
            (core-push (executor j) child
                (modify_node child (λ n. record n { pre_node_id = some from_id }) w1)
              ∙ e)
    ]

core-count_result : (r : NodeResult) (p : Ptr) (w : World) → core (count_result r p w) ≡ core w
unfolding core count_result
core-count_result r_true p w = refl
core-count_result _ p w = refl

core-add_subsequence_nodes :
    (j : ℕ) (p : Ptr) (w : World) → core (add_subsequence_nodes j p w) ≡ core w
unfolding core add_subsequence_nodes
core-add_subsequence_nodes j p w = elim (Bool-cases (not_stop (w.nodes p).result)) [
  | inl e ↦
      rw (e, add_subsequence_nodes)
        (core-push_children j (w.nodes p).chart (w.nodes p).id
            (get_subsequence_ids (data_of_node p w) (is_true (w.nodes p).result))
            (count_result (w.nodes p).result p w)
          ∙ core-count_result (w.nodes p).result p w)
  | inr e ↦ rw (e, add_subsequence_nodes)
]

core-after_run : (j : ℕ) (p : Ptr) (w : World) → core (after_run j p w).0 ≡ core w
unfolding core after_run
core-after_run j p w = ground (
  arith,
  core-executor_pop j w,
  core-add_subsequence_nodes j p
      (modify_node p (λ n. record n { status = end_run }) (executor_pop j w).0),
  core-add_subsequence_nodes j p (modify_node p (λ n. record n { status = end_run }) w),
)

core-drain_executor : (j : ℕ) (ps : List Ptr) (w : World) → core (drain_executor j ps w) ≡ core w
unfolding core drain_executor
core-drain_executor j [] w = refl
core-drain_executor j (p ∷ ps) w =
    core-drain_executor j ps
      (modify_node p (λ n. record n { status = end_run }) (executor_pop j w).0)
    ∙ core-executor_pop j w

core-restore_nodes : (ps : List Ptr) (w : World) → core (restore_nodes ps w) ≡ core w
unfolding core restore_nodes
core-restore_nodes [] w = refl
core-restore_nodes (p ∷ ps) w =
    let w1 = modify_node p (λ n. record n { run_flag = false }) w in
    elim (Bool-cases (is_end_run (w1.nodes p).status)) [
      | inl e ↦ rw (e, restore_nodes) (core-restore_nodes ps (stop p w1) ∙ core-stop_node p w1)
      | inr e ↦ rw (e, restore_nodes) (core-restore_nodes ps w1)
    ]

module _ (behaviour : ℕ → ℕ → Script) (flow : Ptr → World → World × Bool) (i : ℕ)
    (keeps : (p : Ptr) (w : World) → w.current_index ≡ i → core (flow p w).0 ≡ core w) where
  core-dfs_round :
      (j : ℕ) (p : Ptr) (w : World)
      → w.current_index ≡ i
      → core (dfs_round behaviour flow j p w).0 ≡ core w
  unfolding core dfs_round
  core-dfs_round j p w h =
      let w1 = modify_executor j (λ e. record e { current_node = some p }) w in
      let ran = run_node behaviour flow p w1 in
      let k : core (after_run j p ran).0 ≡ core w =
        core-after_run j p ran ∙ core-run_node behaviour flow i keeps p w1 h in
      elim (Bool-cases (is_running (w.nodes p).status && not (w.nodes p).is_wait_all)) [
        | inl e ↦ rw (e, dfs_round) (core-executor_pop j w)
        | inr e ↦
            elim (Bool-cases ((w.nodes p).run_flag && not (data_of_node p w).is_no_loop_check)) [
              | inl f ↦ elim (Option-cases (w.executors j).current_agent) [
                | inl g ↦ rw (e, f, g, dfs_round)
                | inr (a, g) ↦ rw (e, f, g, dfs_round) (core-wait_event a p w.tick_event w)
              ]
              | inr f ↦ rw (e, f, dfs_round) k
            ]
      ]

  core-dfs_loop :
      (k j : ℕ) (c : Ptr) (b : Bool) (w : World)
      → w.current_index ≡ i
      → core (dfs_loop behaviour flow k j c b w).0 ≡ core w
  unfolding core dfs_loop
  core-dfs_loop zero j c b w h = elim (List-cases (w.executors j).node_list) [
    | inl e ↦ rw (e, dfs_loop)
    | inr (p, ps, e) ↦ rw (e, dfs_loop) (ground (arith, core-drain_executor j (p ∷ ps) w))
  ]
  core-dfs_loop (suc k) j c b w h = elim (List-cases (w.executors j).node_list) [
    | inl e ↦ rw (e, dfs_loop)
    | inr (p, ps, e) ↦ elim (Bool-cases (w.charts c).is_running) [
      | inr f ↦ rw (e, f, dfs_loop)
      | inl f ↦
          let w1 = (dfs_round behaviour flow j p w).0 in
          let b' = (dfs_round behaviour flow j p w).1 || b in
          let e1 : core w1 ≡ core w = core-dfs_round j p w h in
          rw (e, f, dfs_loop) (core-dfs_loop k j c b' w1 (index-core w1 w e1 h) ∙ e1)
    ]
  ]

  core-finish_chart :
      (c : Ptr) (b : Bool) (w : World)
      → w.current_index ≡ i
      → core (finish_chart flow c b w) ≡ core w
  unfolding core finish_chart
  core-finish_chart c b w h =
      elim (Bool-cases
        (not b && not (any_running (w.charts c).node_list w) && (w.charts c).is_running)) [
          | inl e ↦ rw (e, finish_chart) (core-chart_return flow i keeps c true w h)
          | inr e ↦ rw (e, finish_chart)
        ]

  core-dfs_run :
      (j : ℕ) (p a c : Ptr) (w : World)
      → w.current_index ≡ i
      → core (dfs_run behaviour flow j p a c w) ≡ core w
  unfolding core dfs_run
  core-dfs_run j p a c w h =
      let w1 = modify_node p (λ n. record n { status = idle }) w in
      let w2 = modify_executor j (λ e. record e { node_list = [] }) w1 in
      let w3 = push (executor j) p w2 in
      let e3 : core w3 ≡ core w = core-push (executor j) p w2 in
      let r = dfs_loop behaviour flow max_nodes_per_execution j c false w3 in
      let e4 : core r.0 ≡ core w =
        core-dfs_loop max_nodes_per_execution j c false w3 (index-core w3 w e3 h) ∙ e3 in
      let w5 = restore_nodes (reverse ((r.0).executors j).history_nodes) r.0 in
      let e5 : core w5 ≡ core w =
        core-restore_nodes (reverse ((r.0).executors j).history_nodes) r.0 ∙ e4 in
      let w6 = modify_executor j (λ e. record e { history_nodes = [] }) w5 in
      core-finish_chart c r.1 w6 (index-core w5 w e5 h) ∙ e5

  core-dfs_run_flow :
      (j : ℕ) (p : Ptr) (w : World)
      → w.current_index ≡ i
      → core (dfs_run_flow behaviour flow j p w) ≡ core w
  unfolding core dfs_run_flow
  core-dfs_run_flow j p w h = elim (Option-cases (w.charts (w.nodes p).chart).agent) [
    | inl e ↦ rw (e, dfs_run_flow)
    | inr (a, e) ↦
        rw (e, dfs_run_flow)
          (ground (
            arith,
            core-dfs_run j p a (w.nodes p).chart
                (modify_executor j (λ x. record x { current_agent = some a }) w) h,
          ))
  ]

core-stack_run_flow :
    (behaviour : ℕ → ℕ → Script) (flow : Ptr → World → World × Bool) (p : Ptr) (w : World)
    → (w.current_index + 1 < max_stack_size
        → (q : Ptr) (v : World) → v.current_index ≡ w.current_index + 1
        → core (flow q v).0 ≡ core v)
    → core (stack_run_flow behaviour flow p w).0 ≡ core w
unfolding core stack_run_flow
core-stack_run_flow behaviour flow p w keeps =
    elim (Bool-cases (leb max_stack_size (w.current_index + 1))) [
      | inl e ↦ rw (e, stack_run_flow)
      | inr e ↦
          rw (e, stack_run_flow)
            (ap (λ (c : Core). record c { current_index = w.current_index })
              (core-dfs_run_flow behaviour flow (w.current_index + 1) (keeps (lt_of_not_leb _ _ e))
                (w.current_index + 1) p (record w { current_index = w.current_index + 1 }) refl))
    ]

core-run_flow_fuel :
    (k : ℕ) (behaviour : ℕ → ℕ → Script) (p : Ptr) (w : World)
    → w.current_index < max_stack_size
    → max_stack_size ≤ w.current_index + k
    → core (run_flow_fuel k behaviour p w).0 ≡ core w
unfolding run_flow_fuel
core-run_flow_fuel zero behaviour p w low fits = absurd (omega arith)
core-run_flow_fuel (suc k) behaviour p w low fits =
    core-stack_run_flow behaviour (run_flow_fuel k behaviour) p w
      λ room q v h. core-run_flow_fuel k behaviour q v (omega arith) (omega arith)

-- Running a flow, where the node functions make calls of the type Call alone (no step, setup, exit or
-- import_event), any of them in any order, leaves the depth of the executor stack, the
-- nesting of triggered events, the declared events, the frame counter and the settings of the
-- manager as they were, and does not exceed the stack of executors that the model provides, if the
-- stack is not deeper than its limit when the flow starts.
pub core-run_flow :
    (behaviour : ℕ → ℕ → Script) (p : Ptr) (w : World)
    → w.current_index < max_stack_size
    → core (run_flow behaviour p w).0 ≡ core w
unfolding run_flow
core-run_flow behaviour p w low = core-run_flow_fuel max_stack_size behaviour p w low (omega arith)
