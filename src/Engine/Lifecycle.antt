-- ===== src/Engine/Lifecycle.antt =====
-- Stopping and destroying: Node::Stop and ~Node (src/core/node.cpp), the attachers
-- (src/core/node_timer.cpp), Chart::Stop and ~Chart (src/core/chart.cpp), and the lookup and removal
-- of an agent's charts (src/core/agent.cpp). A subchart is created after the chart of its owner, so
-- chains of subcharts are no longer than the number of charts, which is the fuel.
pub mod Calms
pub mod Idle
use asyncflow.Base.{
  ℕ, zero, suc, String, Bool, true, false, Option, none, some, List, [], ◌∷◌, ◌==◌, if◌then◌else◌,
  mem, find_name, put_name, ◌||◌,
}
use asyncflow.ChartData.{ChartData, NodeData, new_node_data, get_node_data}
use asyncflow.Engine.State.{
  Ptr, idle, r_stop, Attacher, detached, timer, subchart, wait_all, Node, node_timer, cancel, World,
  modify_node, modify_chart, modify_agent, call_wheel, stuck_at, fault_at,
}
use asyncflow.Engine.Containers.{leave_container}

-- The data of a chart and of a node.
unfoldable pub data_of_chart : Ptr → World → ChartData
data_of_chart c w = w.chart_datas (w.charts c).data_

unfoldable pub data_of_node : Ptr → World → NodeData
data_of_node p w = elim (get_node_data (data_of_chart (w.nodes p).chart w) (w.nodes p).node_data) [
  | none ↦ new_node_data 0
  | some d ↦ d
]

unfoldable pub chart_name : Ptr → World → String
chart_name c w = (data_of_chart c w).chart_name

-- NodeWaitAll::Stop, and the reset in NodeWaitAll::Run.
unfoldable pub reset_ids : List (ℕ × Bool) → List (ℕ × Bool)
reset_ids [] = []
reset_ids ((id, b) ∷ ids) = (id, false) ∷ reset_ids ids

-- INodeAttacher::Stop, given how to stop a chart.
unfoldable pub stop_attacher : (Ptr → World → World) → Ptr → Attacher → World → World
stop_attacher stop_sub p detached w = w
stop_attacher stop_sub p (timer ms) w = call_wheel (cancel (node_timer p)) w
stop_attacher stop_sub p (subchart c) w = stop_sub c w
stop_attacher stop_sub p (wait_all ids) w =
    modify_node p (λ n. record n { attacher = wait_all (reset_ids ids) }) w

abbrev pub idle_node : Node → Node
idle_node n = record n { status = idle; result = r_stop; run_flag = false; skip = false }

unfoldable pub stop_node_with : (Ptr → World → World) → Ptr → World → World
stop_node_with stop_sub p w =
    let w1 = modify_node p idle_node w in
    let w2 = stop_attacher stop_sub p (w1.nodes p).attacher w1 in leave_container p w2

unfoldable pub stop_nodes_with : (Ptr → World → World) → List Ptr → World → World
stop_nodes_with stop_sub [] w = w
stop_nodes_with stop_sub (p ∷ ps) w = stop_nodes_with stop_sub ps (stop_node_with stop_sub p w)

unfoldable pub stop_chart_fuel : ℕ → Ptr → World → World
stop_chart_fuel zero c w = stuck_at w
stop_chart_fuel (suc k) c w =
    modify_chart c (λ x. record x { is_running = false })
      (stop_nodes_with (stop_chart_fuel k) (w.charts c).node_list w)

-- Chart::Stop
unfoldable pub stop_chart : Ptr → World → World
stop_chart c w = stop_chart_fuel w.next_chart c w

-- Node::Stop
unfoldable pub stop_node : Ptr → World → World
stop_node p w = stop_node_with stop_chart p w

-- Equality of the pointers, null or not.
unfoldable pub same_owner : Option Ptr → Option Ptr → Bool
same_owner none none = true
same_owner (some p) (some q) = p == q
same_owner _ _ = false

unfoldable pub find_owner : Option Ptr → List Ptr → World → Option Ptr
find_owner owner [] w = none
find_owner owner (c ∷ cs) w =
    if same_owner (w.charts c).owner_node owner then some c else find_owner owner cs w

-- The vector of charts with a name; a missing key is an empty vector.
unfoldable pub charts_named : Ptr → String → World → List Ptr
charts_named a name w = elim (find_name name (w.agents a).chart_dict) [ none ↦ [] | some cs ↦ cs ]

-- Agent::FindChart
unfoldable pub find_chart : Ptr → String → Option Ptr → World → Option Ptr
find_chart a name owner w = find_owner owner (charts_named a name w) w

unfoldable pub erase_first : Ptr → List Ptr → List Ptr
erase_first c [] = []
erase_first c (x ∷ xs) = if x == c then xs else x ∷ erase_first c xs

-- Agent::EraseChart; false if the agent does not have the chart.
unfoldable pub erase_chart : Ptr → Ptr → World → World × Bool
erase_chart a c w =
    let name = chart_name c w in
    let cs = charts_named a name w in
    if mem c cs
    then (
      modify_agent a (λ x. record x { chart_dict = put_name name (erase_first c cs) x.chart_dict })
          (modify_chart c (λ x. record x { agent = none }) w),
      true,
    )
    else (w, false)

-- `delete attacher_`, given how to delete a chart.
unfoldable pub delete_attacher : (Ptr → World → World) → Ptr → Attacher → World → World
delete_attacher delete_sub p detached w = w
delete_attacher delete_sub p (timer ms) w = call_wheel (cancel (node_timer p)) w
delete_attacher delete_sub p (subchart c) w = delete_sub c w
delete_attacher delete_sub p (wait_all ids) w = w

-- Node::SetAttacher
unfoldable pub set_attacher_with : (Ptr → World → World) → Attacher → Ptr → World → World
set_attacher_with delete_sub a p w =
    modify_node p (λ n. record n { attacher = a })
      (delete_attacher delete_sub p (w.nodes p).attacher w)

-- ~Node for each node of the chart.
unfoldable pub delete_nodes_with : (Ptr → World → World) → List Ptr → World → World
delete_nodes_with delete_sub [] w = w
delete_nodes_with delete_sub (p ∷ ps) w =
    delete_nodes_with delete_sub ps (set_attacher_with delete_sub detached p (stop_node p w))

unfoldable pub leave_agent : Ptr → World → World
leave_agent c w = elim (w.charts c).agent [ none ↦ w | some a ↦ (erase_chart a c w).0 ]

unfoldable pub leave_owner : Ptr → World → World
leave_owner c w = elim (w.charts c).owner_node [
  | none ↦ w
  | some p ↦ modify_node p (λ n. record n { attacher = detached }) w
]

-- Whether one of the first `i` executors of the stack is at a node of the chart. It uses the node and
-- the chart when the call that it makes is over.
unfoldable pub is_executed : ℕ → Ptr → World → Bool
is_executed zero c w = false
is_executed (suc i) c w =
    elim (w.executors (suc i)).current_node [ none ↦ false | some p ↦ (w.nodes p).chart == c ]
    || is_executed i c w

-- The deletion of a chart that is executed is a fault.
unfoldable pub check_executed : Ptr → World → World
check_executed c w = if is_executed w.current_index c w then fault_at w else w

unfoldable pub delete_chart_fuel : ℕ → Ptr → World → World
delete_chart_fuel zero c w = stuck_at w
delete_chart_fuel (suc k) c w =
    let w0 = check_executed c w in
    let w1 = delete_nodes_with (delete_chart_fuel k) (w0.charts c).node_list w0 in
    let w2 = modify_chart c (λ x. record x { node_list = [] }) w1 in
    leave_owner c (leave_agent c w2)

-- ~Chart
unfoldable pub delete_chart : Ptr → World → World
delete_chart c w = delete_chart_fuel w.next_chart c w

unfoldable pub set_attacher : Attacher → Ptr → World → World
set_attacher a p w = set_attacher_with delete_chart a p w
