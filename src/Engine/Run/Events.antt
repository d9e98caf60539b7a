-- ===== src/Engine/Run/Events.antt =====
-- The events of src/core/manager.cpp and the queue of include/core/event_queue.h. A waiting node is
-- run through Manager::RunFlow, which is the parameter `flow`.
use asyncflow.Base.{
  ℕ, zero, suc, ◌+◌, ◌-◌, Bool, true, false, Option, none, some, [], ◌∷◌, ◌++◌, if◌then◌else◌, leb,
  length,
}
use asyncflow.ChartData.{}
use asyncflow.Engine.State.{Ptr, idle, AsyncEvent, World, modify_node, stuck_at, max_event_frame}
use asyncflow.Engine.Containers.{list_pop, list_swap_out}
use asyncflow.Engine.Lifecycle.{}
use asyncflow.Engine.Agents.{get_event_args_count, find_wait_nodes, get_agent_by_id}
use asyncflow.Engine.Control.{}

-- AsyncEventBase::GetWaitingNodes, with the test of its callers that there are any.
unfoldable pub get_waiting_nodes : AsyncEvent → World → Option ℕ
get_waiting_nodes ev w = elim (get_agent_by_id ev.agent_id w) [
  | none ↦ none
  | some a ↦ elim (find_wait_nodes a ev.id w) [
    | none ↦ none
    | some l ↦ elim (w.lists l) [ [] ↦ none | _ ∷ _ ↦ some l ]
  ]
]

-- EventQueue::AddEvent
unfoldable pub add_event : AsyncEvent → Bool → World → World
add_event ev immediate w =
    if immediate
    then record w { out_event_list = ev ∷ w.out_event_list }
    else record w { in_event_list = w.in_event_list ++ ev ∷ [] }

module _ (flow : Ptr → World → World × Bool) where
  -- The loop of Manager::_handleEvent; the fuel is the length of the list, which no code adds to.
  unfoldable pub run_waiting : ℕ → ℕ → World → World
  run_waiting zero l w = elim (w.lists l) [ [] ↦ w | _ ∷ _ ↦ stuck_at w ]
  run_waiting (suc k) l w = elim (w.lists l) [
    | [] ↦ w
    | p ∷ _ ↦
        run_waiting k l
          (flow p (modify_node p (λ n. record n { status = idle }) (list_pop l w).0)).0
  ]

  -- Manager::_handleEvent, after the swap of HandleEvent and TriggerEvent.
  unfoldable pub handle_list : AsyncEvent → ℕ → World → World
  handle_list ev l w =
      let r = list_swap_out l (record w { current_event = some ev }) in
      record (run_waiting (length (w.lists l)) r.1 r.0) { current_event = none }

  -- Manager::HandleEvent
  unfoldable pub handle_event : AsyncEvent → World → World
  handle_event ev w = elim (get_waiting_nodes ev w) [ none ↦ w | some l ↦ handle_list ev l w ]

  -- Manager::TriggerEvent
  unfoldable pub trigger_event : AsyncEvent → World → World × Bool
  trigger_event ev w = elim (get_waiting_nodes ev w) [
    | none ↦ (w, true)
    | some l ↦
        if leb max_event_frame w.current_event_frame
        then (w, false)
        else let w1 =
            handle_list ev l (record w { current_event_frame = w.current_event_frame + 1 }) in
          (
            record w1 {
              current_event_frame = w1.current_event_frame - 1;
              current_event = w.current_event;
            },
            true,
          )
  ]

  unfoldable pub raise_event : AsyncEvent → Bool → Bool → World → World
  raise_event ev immediate false w = add_event ev immediate w
  raise_event ev immediate true w =
      let r = trigger_event ev w in if r.1 then r.0 else add_event ev immediate r.0

  -- Manager::Event
  unfoldable pub event : ℕ → Option Ptr → ℕ → Bool → Bool → World → World × Bool
  event id none arg_count immediate trigger w = (w, false)
  event id (some a) arg_count immediate trigger w = elim (get_event_args_count id w) [
    | none ↦ (w, false)
    | some _ ↦
        if (w.agents a).is_destroying
        then (w, false)
        else let ev : AsyncEvent = record {
          id = id;
          arg_count = arg_count;
          agent_id = (w.agents a).id;
        } in
          (raise_event ev immediate trigger w, true)
  ]
