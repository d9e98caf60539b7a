-- ===== src/Engine/Control.antt =====
-- The functions of src/core/manager.cpp that a node function calls and that run no other node:
-- Wait, WaitAll, StopNode, StopFlow, WaitEvent and the asynchronous contexts, with
-- src/core/async_manager.cpp. Debug builds aside.
use asyncflow.Base.{
  ℕ, Bool, true, false, Option, none, some, List, [], ◌∷◌, ◌==◌, if◌then◌else◌, leb, mem, without,
  length, get_elem?,
}
use asyncflow.ChartData.{get_subsequence_ids}
use asyncflow.Engine.State.{
  Ptr, running, end_run, NodeResult, r_false, r_true, Attacher, detached, timer, wait_all,
  async_waiting, async_active, Node, schedule, cancel, node_timer, World, modify_node, call_wheel,
  fault_at, stuck_at,
}
use asyncflow.Engine.Containers.{push, container_remove, executor_remove}
use asyncflow.Engine.Lifecycle.{data_of_node, stop_node, set_attacher}
use asyncflow.Engine.WaitAll.{init_ids, run_wait_all}
use asyncflow.Engine.Reach.{flow_ids}
use asyncflow.Engine.Agents.{wait_event}
pub mod Contexts

abbrev pub to_result : Bool → NodeResult
to_result b = if b then r_true else r_false

-- StackExecutor::GetCurrentNode
unfoldable pub get_current_node : World → Option Ptr
get_current_node w = (w.executors w.current_index).current_node

-- Chart::GetNode; an index out of range is undefined.
unfoldable pub get_node : Ptr → ℕ → World → Option Ptr
get_node c id w = get_elem? (w.charts c).node_list id

-- NodeTimer::Register
unfoldable pub register_timer : Ptr → ℕ → World → World
register_timer p ms w =
    call_wheel (schedule (node_timer p) ms) (call_wheel (cancel (node_timer p)) w)

abbrev pub waiting_node : Node → Node
waiting_node n = record n { skip = true; result = r_true; status = running }

unfoldable pub start_timer : Ptr → ℕ → Attacher → World → World
start_timer p ms (timer _) w =
    modify_node p (λ n. record n { attacher = timer ms }) (register_timer p ms w)
start_timer p ms _ w = set_attacher (timer ms) p (register_timer p ms w)

-- Manager::Wait
unfoldable pub wait : ℕ → World → World
wait milliseconds w =
    let ms = if milliseconds == 0 then 1 else milliseconds in
    elim (get_current_node w) [
      | none ↦ w
      | some p ↦ modify_node p waiting_node (start_timer p ms (w.nodes p).attacher w)
    ]

-- The end of Manager::WaitAll, with the ids of the barrier.
unfoldable pub run_barrier : Ptr → List (ℕ × Bool) → World → World × Bool
run_barrier p ids w =
    let r = run_wait_all (w.nodes p).pre_node_id ids in
    if r.1
    then (
      modify_node p (λ n. record n { attacher = wait_all r.0; status = end_run; result = r_true })
          w,
      true,
    )
    else (modify_node p (λ n. record n { attacher = wait_all r.0; status = running }) w, false)

abbrev pub flag_wait_all : Ptr → World → World
flag_wait_all p w = modify_node p (λ n. record n { is_wait_all = true }) w

unfoldable pub enter_barrier : Ptr → List ℕ → Attacher → World → World × Bool
enter_barrier p args detached w = run_barrier p (init_ids args) w
enter_barrier p args (wait_all ids) w = run_barrier p ids w
enter_barrier p args _ w = (fault_at w, false)

-- Manager::WaitAll; the cast of another attacher is undefined.
unfoldable pub wait_for_all : List ℕ → World → World × Bool
wait_for_all args w = elim (get_current_node w) [
  | none ↦ (fault_at w, false)
  | some p ↦ enter_barrier p args (w.nodes p).attacher (flag_wait_all p w)
]

-- The body of the loops of StopNode and StopFlow.
unfoldable pub halt_node : Ptr → ℕ → World → World
halt_node c id w = elim (get_node c id w) [
  | none ↦ fault_at w
  | some p ↦ executor_remove p (stop_node p w)
]

unfoldable pub halt_nodes : Ptr → List ℕ → World → World
halt_nodes c [] w = w
halt_nodes c (id ∷ ids) w = halt_nodes c ids (halt_node c id w)

unfoldable pub stop_ids : Ptr → List ℕ → World → World
stop_ids c [] w = w
stop_ids c (id ∷ ids) w =
    stop_ids c ids (if leb (length (w.charts c).node_list) id then w else halt_node c id w)

-- Manager::StopNode
unfoldable pub stop_nodes : List ℕ → World → World × Bool
stop_nodes args w = elim (get_current_node w) [
  | none ↦ (fault_at w, false)
  | some p ↦ (stop_ids (w.nodes p).chart args w, true)
]

-- The children of a node of a chart, by its id.
unfoldable pub children : Ptr → Bool → World → ℕ → List ℕ
children c result w id = elim (get_node c id w) [
  | none ↦ []
  | some p ↦ get_subsequence_ids (data_of_node p w) result
]

-- The id of the node of a chart at an index.
unfoldable pub node_id_at : Ptr → World → ℕ → ℕ
node_id_at c w i = elim (get_node c i w) [ none ↦ i | some p ↦ (w.nodes p).id ]

-- Manager::StopFlow
unfoldable pub stop_flow : List ℕ → World → World × Bool
stop_flow args w = elim (get_current_node w) [
  | none ↦ (fault_at w, false)
  | some p ↦
      let c = (w.nodes p).chart in
      let count = length (w.charts c).node_list in
      elim (flow_ids (children c true w) (children c false w) (node_id_at c w) count args []) [
        | none ↦ (stuck_at w, false)
        | some ids ↦ (halt_nodes c ids w, true)
      ]
]

-- Manager::WaitEvent
unfoldable pub wait_for_event : Ptr → ℕ → World → World × Bool
wait_for_event a id w = elim (get_current_node w) [
  | none ↦ (w, false)
  | some p ↦
      if (data_of_node p w).is_event
      then (wait_event a p id (modify_node p waiting_node w), true)
      else (w, false)
]

-- AsyncManager::AddNode
unfoldable pub add_async_node : Ptr → World → World
add_async_node p w =
    let w1 = push async_waiting p w in
    record w1 { nodes_set = if mem p w1.nodes_set then w1.nodes_set else p ∷ w1.nodes_set }

-- AsyncManager::RemoveNode
unfoldable pub remove_async_node : Ptr → World → World
remove_async_node p w =
    let w1 = container_remove async_waiting p w in record w1 { nodes_set = without p w1.nodes_set }

-- _NodeList::Contains, of the nodes that are ready to go on.
unfoldable pub is_active : Ptr → World → Bool
is_active p w = elim (w.nodes p).container [ some async_active ↦ true | _ ↦ false ]

-- AsyncManager::ActivateNode
unfoldable pub activate_node : Ptr → Bool → World → World
activate_node p skip_flag w =
    if is_active p w
    then w
    else modify_node p (λ n. record n { skip = skip_flag }) (push async_active p w)

-- Manager::CreateAsyncContext; `none` is the null context.
unfoldable pub create_async_context : World → World × Option Ptr
create_async_context w = elim (get_current_node w) [
  | none ↦ (w, none)
  | some p ↦ (add_async_node p (modify_node p (λ n. record n { status = running }) w), some p)
]

-- Manager::ContinueAsyncNode
unfoldable pub continue_async_node : Ptr → World → World × Bool
continue_async_node p w =
    if mem p w.nodes_set then (activate_node p true (remove_async_node p w), true) else (w, false)

-- Manager::CancelAsyncNode
unfoldable pub cancel_async_node : Ptr → Bool → World → World × Bool
cancel_async_node p stop w =
    if mem p w.nodes_set
    then (
      (if stop
          then remove_async_node p w
          else modify_node p (λ n. record n { result = r_false })
              (activate_node p true (remove_async_node p w))),
      true,
    )
    else (w, false)
