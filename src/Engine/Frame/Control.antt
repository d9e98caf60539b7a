-- ===== src/Engine/Frame/Control.antt =====
-- The core of the manager (Frame/Core) under the operations of src/core/manager.cpp.
use asyncflow.Base.{
  if◌then◌else◌, ◌==◌, ℕ, Bool, true, false, ◌≡◌, refl, ◌∙◌, Option, none, some, List, [], ◌∷◌,
  arith, inl, inr, Option-cases, Bool-cases, leb, length, mem,
}
use asyncflow.Engine.State.{
  Ptr, World, Attacher, detached, timer, subchart, wait_all, async_waiting, async_active,
  modify_node, NodeStatus,
}
use asyncflow.Engine.Lifecycle.{stop_node}
use asyncflow.Engine.Reach.{flow_ids}
use asyncflow.Engine.WaitAll.{init_ids}
use asyncflow.Engine.Control.{
  get_current_node, get_node, register_timer, start_timer, wait, waiting_node, run_barrier,
  enter_barrier, flag_wait_all, wait_for_all, halt_node, halt_nodes, stop_ids, stop_nodes, children,
  stop_flow, wait_for_event, add_async_node, remove_async_node, is_active, activate_node,
  create_async_context, continue_async_node, cancel_async_node, node_id_at,
}
use asyncflow.Engine.Frame.Core.{core, core-push, core-executor_remove, core-container_remove}
use asyncflow.Engine.Frame.Lifecycle.{core-stop_node, core-set_attacher}
use asyncflow.Engine.Frame.Agents.{core-wait_event}

core-start_timer :
    (p : Ptr) (ms : ℕ) (a : Attacher) (w : World) → core (start_timer p ms a w) ≡ core w
unfolding core start_timer register_timer
core-start_timer p ms (timer _) w = refl
core-start_timer p ms detached w = core-set_attacher (timer ms) p (register_timer p ms w)
core-start_timer p ms (subchart c) w = core-set_attacher (timer ms) p (register_timer p ms w)
core-start_timer p ms (wait_all ids) w = core-set_attacher (timer ms) p (register_timer p ms w)

pub core-wait : (ms : ℕ) (w : World) → core (wait ms w) ≡ core w
unfolding core wait
core-wait ms w = elim (Option-cases (get_current_node w)) [
  | inl e ↦ rw (e, wait)
  | inr (p, e) ↦
      rw (e, wait) (core-start_timer p (if ms == 0 then 1 else ms) (w.nodes p).attacher w)
]

core-run_barrier :
    (p : Ptr) (ids : List (ℕ × Bool)) (w : World) → core (run_barrier p ids w).0 ≡ core w
unfolding core run_barrier
core-run_barrier p ids w = ground arith

core-enter_barrier :
    (p : Ptr) (args : List ℕ) (a : Attacher) (w : World)
    → core (enter_barrier p args a w).0 ≡ core w
unfolding core enter_barrier
core-enter_barrier p args detached w = core-run_barrier p (init_ids args) w
core-enter_barrier p args (wait_all ids) w = core-run_barrier p ids w
core-enter_barrier p args (timer ms) w = refl
core-enter_barrier p args (subchart c) w = refl

pub core-wait_for_all : (args : List ℕ) (w : World) → core (wait_for_all args w).0 ≡ core w
unfolding core wait_for_all
core-wait_for_all args w = elim (Option-cases (get_current_node w)) [
  | inl e ↦ rw (e, wait_for_all)
  | inr (p, e) ↦
      rw (e, wait_for_all) (core-enter_barrier p args (w.nodes p).attacher (flag_wait_all p w))
]

core-halt_node : (c : Ptr) (id : ℕ) (w : World) → core (halt_node c id w) ≡ core w
unfolding core halt_node
core-halt_node c id w = elim (Option-cases (get_node c id w)) [
  | inl e ↦ rw (e, halt_node)
  | inr (p, e) ↦ rw (e, halt_node) (core-executor_remove p (stop_node p w) ∙ core-stop_node p w)
]

core-halt_nodes : (c : Ptr) (ids : List ℕ) (w : World) → core (halt_nodes c ids w) ≡ core w
unfolding halt_nodes
core-halt_nodes c [] w = refl
core-halt_nodes c (id ∷ ids) w = core-halt_nodes c ids (halt_node c id w) ∙ core-halt_node c id w

core-stop_ids : (c : Ptr) (ids : List ℕ) (w : World) → core (stop_ids c ids w) ≡ core w
unfolding stop_ids
core-stop_ids c [] w = refl
core-stop_ids c (id ∷ ids) w = elim (Bool-cases (leb (length (w.charts c).node_list) id)) [
  | inl e ↦ rw (e, stop_ids) (core-stop_ids c ids w)
  | inr e ↦ rw (e, stop_ids) (core-stop_ids c ids (halt_node c id w) ∙ core-halt_node c id w)
]

pub core-stop_nodes : (args : List ℕ) (w : World) → core (stop_nodes args w).0 ≡ core w
unfolding core stop_nodes
core-stop_nodes args w = elim (Option-cases (get_current_node w)) [
  | inl e ↦ rw (e, stop_nodes)
  | inr (p, e) ↦ rw (e, stop_nodes) (core-stop_ids (w.nodes p).chart args w)
]

core-halt_found :
    (c : Ptr) (w : World) (ids : Option (List ℕ))
    → core
        (elim ids as (λ _. World) [ none ↦ record w { stuck = true } | some l ↦ halt_nodes c l w ])
      ≡ core w
unfolding core
core-halt_found c w none = refl
core-halt_found c w (some l) = core-halt_nodes c l w

pub core-stop_flow : (args : List ℕ) (w : World) → core (stop_flow args w).0 ≡ core w
unfolding core stop_flow
core-stop_flow args w = elim (Option-cases (get_current_node w)) [
  | inl e ↦ rw (e, stop_flow)
  | inr (p, e) ↦
      rw (e, stop_flow)
        (elim (Option-cases (
          flow_ids (children (w.nodes p).chart true w) (children (w.nodes p).chart false w)
            (node_id_at (w.nodes p).chart w) (length (w.charts (w.nodes p).chart).node_list) args
            [])) [
              | inl f ↦ rw (f, stop_flow)
              | inr (ids, f) ↦ rw (f, stop_flow) (core-halt_nodes (w.nodes p).chart ids w)
            ])
]

pub core-wait_for_event : (a : Ptr) (id : ℕ) (w : World) → core (wait_for_event a id w).0 ≡ core w
unfolding core wait_for_event
core-wait_for_event a id w = elim (Option-cases (get_current_node w)) [
  | inl e ↦ rw (e, wait_for_event)
  | inr (p, e) ↦
      rw (e, wait_for_event) (ground (arith, core-wait_event a p id (modify_node p waiting_node w)))
]

core-add_async_node : (p : Ptr) (w : World) → core (add_async_node p w) ≡ core w
unfolding core add_async_node
core-add_async_node p w = core-push async_waiting p w

pub core-remove_async_node : (p : Ptr) (w : World) → core (remove_async_node p w) ≡ core w
unfolding core remove_async_node
core-remove_async_node p w = core-container_remove async_waiting p w

core-activate_node : (p : Ptr) (b : Bool) (w : World) → core (activate_node p b w) ≡ core w
unfolding core activate_node
core-activate_node p b w = elim (Bool-cases (is_active p w)) [
  | inl e ↦ rw (e, activate_node)
  | inr e ↦ rw (e, activate_node) (core-push async_active p w)
]

pub core-create_async_context : (w : World) → core (create_async_context w).0 ≡ core w
unfolding core create_async_context
core-create_async_context w = elim (Option-cases (get_current_node w)) [
  | inl e ↦ rw (e, create_async_context)
  | inr (p, e) ↦
      rw (e, create_async_context)
        (core-add_async_node p (modify_node p (λ n. record n { status = NodeStatus.running }) w))
]

pub core-continue_async_node : (p : Ptr) (w : World) → core (continue_async_node p w).0 ≡ core w
unfolding core continue_async_node
core-continue_async_node p w = elim (Bool-cases (mem p w.nodes_set)) [
  | inl e ↦
      rw (e, continue_async_node)
        (core-activate_node p true (remove_async_node p w) ∙ core-remove_async_node p w)
  | inr e ↦ rw (e, continue_async_node)
]

pub core-cancel_async_node :
    (p : Ptr) (stop : Bool) (w : World) → core (cancel_async_node p stop w).0 ≡ core w
unfolding core cancel_async_node
core-cancel_async_node p true w = elim (Bool-cases (mem p w.nodes_set)) [
  | inl e ↦ rw (e, cancel_async_node) (core-remove_async_node p w)
  | inr e ↦ rw (e, cancel_async_node)
]
core-cancel_async_node p false w = elim (Bool-cases (mem p w.nodes_set)) [
  | inl e ↦
      rw (e, cancel_async_node)
        (core-activate_node p true (remove_async_node p w) ∙ core-remove_async_node p w)
  | inr e ↦ rw (e, cancel_async_node)
]
