-- ===== src/Engine/Frame/Events.antt =====
-- The core of the manager (Frame/Core) under the operations of src/core/manager.cpp.
use asyncflow.Base.{
  ℕ, zero, suc, ◌+◌, Bool, true, false, ◌≡◌, refl, ap, ◌∙◌, Option, none, some, arith, inl, inr,
  Option-cases, List-cases, length,
}
use asyncflow.Engine.State.{Ptr, World, AsyncEvent, idle, modify_node}
use asyncflow.Engine.Containers.{list_pop, list_swap_out}
use asyncflow.Engine.Frame.Core.{core, core-list_pop}
use asyncflow.Engine.Run.Events.{
  run_waiting, handle_list, get_waiting_nodes, handle_event, trigger_event, event, raise_event,
  add_event,
}

-- The depth of the stack is a part of the core.
pub index-core : (v w : World) {i : ℕ} → core v ≡ core w → w.current_index ≡ i → v.current_index ≡ i
unfolding core
index-core v w e h = ap (λ c. c.current_index) e ∙ h

module _ (flow : Ptr → World → World × Bool) (i : ℕ)
    (keeps : (p : Ptr) (w : World) → w.current_index ≡ i → core (flow p w).0 ≡ core w) where
  core-run_waiting :
      (k l : ℕ) (w : World) → w.current_index ≡ i → core (run_waiting flow k l w) ≡ core w
  unfolding core run_waiting
  core-run_waiting zero l w h = ground arith
  core-run_waiting (suc k) l w h = elim (List-cases (w.lists l)) [
    | inl e ↦ rw (e, run_waiting)
    | inr (p, ps, e) ↦
        rw (e, run_waiting)
          (let w1 = modify_node p (λ n. record n { status = idle }) (list_pop l w).0 in
            let e1 : core w1 ≡ core w = core-list_pop l w in
            let e2 : core (flow p w1).0 ≡ core w = keeps p w1 (index-core w1 w e1 h) ∙ e1 in
            core-run_waiting k l (flow p w1).0 (index-core (flow p w1).0 w e2 h) ∙ e2)
  ]

  core-handle_list :
      (ev : AsyncEvent) (l : ℕ) (w : World)
      → w.current_index ≡ i
      → core (handle_list flow ev l w) ≡ core w
  unfolding core handle_list list_swap_out
  core-handle_list ev l w h =
      let r = list_swap_out l (record w { current_event = some ev }) in
      core-run_waiting (length (w.lists l)) r.1 r.0 h

  pub core-handle_event :
      (ev : AsyncEvent) (w : World) → w.current_index ≡ i → core (handle_event flow ev w) ≡ core w
  unfolding core handle_event
  core-handle_event ev w h = elim (Option-cases (get_waiting_nodes ev w)) [
    | inl e ↦ rw (e, handle_event)
    | inr (l, e) ↦ rw (e, handle_event) (core-handle_list ev l w h)
  ]

  core-trigger_event :
      (ev : AsyncEvent) (w : World)
      → w.current_index ≡ i
      → core (trigger_event flow ev w).0 ≡ core w
  unfolding core trigger_event
  core-trigger_event ev w h = elim (Option-cases (get_waiting_nodes ev w)) [
    | inl e ↦ rw (e, trigger_event)
    | inr (l, e) ↦
        rw (e, trigger_event)
          (ground (
            arith,
            core-handle_list ev l (record w { current_event_frame = w.current_event_frame + 1 }) h,
          ))
  ]

  pub core-event :
      (id : ℕ) (a : Option Ptr) (n : ℕ) (imm trig : Bool) (w : World)
      → w.current_index ≡ i
      → core (event flow id a n imm trig w).0 ≡ core w
  unfolding core event raise_event add_event
  core-event id none n imm trig w h = refl
  core-event id (some a) n imm false w h = ground arith
  core-event id (some a) n imm true w h =
      let ev : AsyncEvent = record { id = id; arg_count = n; agent_id = (w.agents a).id } in
      ground (arith, core-trigger_event ev w h)
