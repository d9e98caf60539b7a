-- ===== src/Engine/Run/Nodes.antt =====
-- Node::Run (src/core/node.cpp) and the calls of node functions (src/core/node_func.cpp).
use asyncflow.Engine.Agents.Defs.{register_game_object}
use asyncflow.Base.{ℕ, ◌+◌, Bool, true, false, Option, List, if◌then◌else◌}
use asyncflow.ChartData.{
  NodeFunc, no_func, user, control, ControlFunc, wait_all, stop_node, stop_flow,
}
use asyncflow.Engine.State.{Ptr, NodeResult, r_false, r_stop, World, modify_node}
use asyncflow.Engine.Lifecycle.{data_of_node}
use asyncflow.Engine.Agents.{
  attach_chart, remove_chart, stop_chart_named, stop_agent, unregister_game_object,
}
use asyncflow.Engine.Control.{
  to_result, get_current_node, get_node, wait, wait_for_all, stop_nodes, wait_for_event,
  create_async_context, continue_async_node, cancel_async_node,
}
use asyncflow.Engine.Control as Control
use asyncflow.Engine.Run.Events.{event}
use asyncflow.Engine.Run.Charts.{call_subchart, return_current, start_chart_named, start_agent}
use asyncflow.Engine.Run.Script.{
  Call, call_wait, call_wait_all, call_stop_node, call_stop_flow, call_wait_event, call_sub,
  call_return, call_event, call_async, call_continue, call_cancel, call_attach, call_start,
  call_stop_chart, call_remove, call_start_agent, call_stop_agent, call_register, call_deregister,
  Script, done, act, reply, reply_ptr,
}

abbrev pub with_reply : World × Bool → World × ℕ
with_reply r = (r.0, reply r.1)

abbrev pub with_ptr : World × Option Ptr → World × ℕ
with_ptr r = (r.0, reply_ptr r.1)

unfoldable pub control_call : ControlFunc → List ℕ → World → World × Bool
control_call wait_all ids w = wait_for_all ids w
control_call stop_node ids w = stop_nodes ids w
control_call stop_flow ids w = Control.stop_flow ids w

abbrev pub not_stop : NodeResult → Bool
not_stop r_stop = false
not_stop _ = true

-- One call of the interface.
module _ (flow : Ptr → World → World × Bool) where
  unfoldable pub do_call : Call → World → World × ℕ
  do_call (call_wait ms) w = (wait ms w, 0)
  do_call (call_wait_all ids) w = with_reply (wait_for_all ids w)
  do_call (call_stop_node ids) w = with_reply (stop_nodes ids w)
  do_call (call_stop_flow ids) w = with_reply (Control.stop_flow ids w)
  do_call (call_wait_event a id) w = with_reply (wait_for_event a id w)
  do_call (call_sub name a) w = with_reply (call_subchart flow name a w)
  do_call (call_return b) w = (return_current flow b w, 0)
  do_call (call_event id a n imm trig) w = with_reply (event flow id a n imm trig w)
  do_call call_async w = with_ptr (create_async_context w)
  do_call (call_continue p) w = with_reply (continue_async_node p w)
  do_call (call_cancel p stop) w = with_reply (cancel_async_node p stop w)
  do_call (call_attach a name) w = with_ptr (attach_chart a name w)
  do_call (call_start a name) w = with_reply (start_chart_named flow a name w)
  do_call (call_stop_chart a name) w = with_reply (stop_chart_named a name w)
  do_call (call_remove a name) w = with_reply (remove_chart a name w)
  do_call (call_start_agent a) w = (start_agent flow a w, 0)
  do_call (call_stop_agent a) w = (stop_agent a w, 0)
  do_call (call_register game_object tick) w = with_ptr (register_game_object game_object tick w)
  do_call (call_deregister a) w = with_reply (unregister_game_object a w)

-- `behaviour f n` is what the user function `f` does in the `n`-th call of a user function.
module _ (behaviour : ℕ → ℕ → Script) (flow : Ptr → World → World × Bool) where
  unfoldable pub run_script : Script → World → World × NodeResult
  run_script (done r) w = (w, r)
  run_script (act c k) w = let r = do_call flow c w in run_script (k r.1) r.0

  -- NodeFunc::call, and the result that Node::Run stores after it.
  unfoldable pub call_func : NodeFunc → Ptr → World → World
  call_func no_func p w = w
  call_func (user f) p w =
      let r = run_script (behaviour f w.calls) (record w { calls = w.calls + 1 }) in
      if not_stop ((r.0).nodes p).result
      then modify_node p (λ n. record n { result = r.1 }) r.0
      else r.0
  call_func (control f ids) p w =
      let r = control_call f ids w in
      if not_stop ((r.0).nodes p).result
      then modify_node p (λ n. record n { result = to_result r.1 }) r.0
      else r.0

  -- Node::Run
  unfoldable pub run_node : Ptr → World → World
  run_node p w =
      if (w.nodes p).skip
      then modify_node p (λ n. record n { skip = false }) w
      else call_func (data_of_node p w).node_func p
          (modify_node p (λ n. record n { run_flag = true; result = r_false }) w)
