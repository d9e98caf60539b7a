-- ===== src/Engine/Run/Script.antt =====
-- Node functions of the scripting language, which the bindings pass to the engine: what they call,
-- and when they end.
--
-- `Call` has the calls that act on the charts, nodes, events and agents of the running engine: the
-- wait, wait_all, stop_node, stop_flow, wait_event, call_sub, ret, event, callback, register,
-- deregister, attach, remove, start and stop of src/lua/export_lua.cpp, where callback is the two calls
-- of an asynchronous context. The module also exports calls that a node function can make and that
-- are not here: step, which runs a step within a step, setup, exit, import_event, import_charts,
-- patch, set_error_handler, config_log, set_logger, set_node_func, set_var and set_callback, and the
-- same calls of the manager class. Nothing in the bindings refuses them in a node function. The calls
-- that only read (get_var, get_event_param, time, get_charts, get_obj, get_current_manager) are not
-- here either.
use asyncflow.Base.{ℕ, suc, String, Bool, Option, none, some, List, if◌then◌else◌}
use asyncflow.Engine.State.{Ptr, NodeResult}

-- A call of the interface by a node function, one of those above. Agents are pointers that the bindings look up.
pub data Call : Type 0 where
  call_wait : ℕ → Call
  call_wait_all call_stop_node call_stop_flow : List ℕ → Call
  call_wait_event : Ptr → ℕ → Call
  call_sub : String → Option Ptr → Call
  call_return : Bool → Call
  call_event : ℕ → Option Ptr → ℕ → Bool → Bool → Call
  call_async : Call
  call_continue : Ptr → Call
  call_cancel : Ptr → Bool → Call
  call_attach call_start call_stop_chart call_remove : Ptr → String → Call
  call_start_agent call_stop_agent : Ptr → Call
  call_register : ℕ → ℕ → Call
  call_deregister : Option Ptr → Call

-- A node function in the scripting language, as seen from the engine: a result, or a call and what
-- it does with each reply.
pub data Script : Type 0 where
  done : NodeResult → Script
  act : Call → (ℕ → Script) → Script

abbrev pub reply : Bool → ℕ
reply b = if b then 1 else 0

abbrev pub reply_ptr : Option Ptr → ℕ
reply_ptr none = 0
reply_ptr (some p) = suc p
