-- ===== src/Engine/Frame/Nodes.antt =====
-- The core of the manager (Frame/Core) under the operations of src/core/node.cpp.
use asyncflow.Base.{ℕ, ◌+◌, Bool, true, ◌≡◌, refl, ◌∙◌, List, arith}
use asyncflow.ChartData.{
  NodeFunc, no_func, user, control, ControlFunc, wait_all, stop_node, stop_flow,
}
use asyncflow.Engine.State.{Ptr, World, r_false, modify_node}
use asyncflow.Engine.Lifecycle.{data_of_node}
use asyncflow.Engine.Run.Script.{
  Script, done, act, Call, call_wait, call_wait_all, call_stop_node, call_stop_flow,
  call_wait_event, call_sub, call_return, call_event, call_async, call_continue, call_cancel,
  call_attach, call_start, call_stop_chart, call_remove, call_start_agent, call_stop_agent,
  call_register, call_deregister,
}
use asyncflow.Engine.Frame.Core.{core}
use asyncflow.Engine.Frame.Agents.{
  core-attach_chart, core-remove_chart, core-stop_chart_named, core-stop_agent,
  core-unregister_game_object, core-register_game_object,
}
use asyncflow.Engine.Frame.Control.{
  core-wait, core-wait_for_all, core-stop_nodes, core-stop_flow, core-wait_for_event,
  core-create_async_context, core-continue_async_node, core-cancel_async_node,
}
use asyncflow.Engine.Run.Nodes.{control_call, do_call, run_script, call_func, run_node}
use asyncflow.Engine.Frame.Events.{index-core, core-event}
use asyncflow.Engine.Frame.Charts.{
  core-start_chart_named, core-start_agent, core-call_subchart, core-return_current,
}

core-control_call :
    (f : ControlFunc) (ids : List ℕ) (w : World) → core (control_call f ids w).0 ≡ core w
unfolding control_call
core-control_call wait_all ids w = core-wait_for_all ids w
core-control_call stop_node ids w = core-stop_nodes ids w
core-control_call stop_flow ids w = core-stop_flow ids w

module _ (behaviour : ℕ → ℕ → Script) (flow : Ptr → World → World × Bool) (i : ℕ)
    (keeps : (p : Ptr) (w : World) → w.current_index ≡ i → core (flow p w).0 ≡ core w) where
  core-do_call : (c : Call) (w : World) → w.current_index ≡ i → core (do_call flow c w).0 ≡ core w
  unfolding do_call
  core-do_call (call_wait ms) w h = core-wait ms w
  core-do_call (call_wait_all ids) w h = core-wait_for_all ids w
  core-do_call (call_stop_node ids) w h = core-stop_nodes ids w
  core-do_call (call_stop_flow ids) w h = core-stop_flow ids w
  core-do_call (call_wait_event a id) w h = core-wait_for_event a id w
  core-do_call (call_sub name a) w h = core-call_subchart flow i keeps name a w h
  core-do_call (call_return b) w h = core-return_current flow i keeps b w h
  core-do_call (call_event id a n imm trig) w h = core-event flow i keeps id a n imm trig w h
  core-do_call call_async w h = core-create_async_context w
  core-do_call (call_continue p) w h = core-continue_async_node p w
  core-do_call (call_cancel p stop) w h = core-cancel_async_node p stop w
  core-do_call (call_attach a name) w h = core-attach_chart a name w
  core-do_call (call_start a name) w h = core-start_chart_named flow i keeps a name w h
  core-do_call (call_stop_chart a name) w h = core-stop_chart_named a name w
  core-do_call (call_remove a name) w h = core-remove_chart a name w
  core-do_call (call_start_agent a) w h = core-start_agent flow i keeps a w h
  core-do_call (call_stop_agent a) w h = core-stop_agent a w
  core-do_call (call_register game_object tick) w h = core-register_game_object game_object tick w
  core-do_call (call_deregister a) w h = core-unregister_game_object a w

  core-run_script :
      (s : Script) (w : World)
      → w.current_index ≡ i
      → core (run_script behaviour flow s w).0 ≡ core w
  unfolding run_script
  core-run_script (done r) w h = refl
  core-run_script (act c k) w h =
      let w1 = (do_call flow c w).0 in
      let e : core w1 ≡ core w = core-do_call c w h in
      core-run_script (k (do_call flow c w).1) w1 (index-core w1 w e h) ∙ e

  core-call_func :
      (f : NodeFunc) (p : Ptr) (w : World)
      → w.current_index ≡ i
      → core (call_func behaviour flow f p w) ≡ core w
  unfolding core call_func
  core-call_func no_func p w h = refl
  core-call_func (user f) p w h =
      ground (arith, core-run_script (behaviour f w.calls) (record w { calls = w.calls + 1 }) h)
  core-call_func (control f ids) p w h = ground (arith, core-control_call f ids w)

  pub core-run_node :
      (p : Ptr) (w : World) → w.current_index ≡ i → core (run_node behaviour flow p w) ≡ core w
  unfolding core run_node
  core-run_node p w h = ground (
    arith,
    core-call_func (data_of_node p w).node_func p
        (modify_node p (λ n. record n { run_flag = true; result = r_false }) w) h,
  )
