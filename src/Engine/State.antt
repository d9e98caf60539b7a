-- ===== src/Engine/State.antt =====
-- The objects of the engine and the store that holds them: include/core/node.h, chart.h, agent.h,
-- agent_manager.h, node_attacher.h, custom_struct.h, executor.h, async_manager.h, async_event.h and
-- manager.h. A pointer is a number, and a null pointer `none`.
use asyncflow.Base.{ℕ, String, Bool, true, false, Option, none, List, [], ◌∷◌, update}
use asyncflow.ChartData.{ChartData, new_chart_data}

abbrev pub Ptr : Type 0
Ptr = ℕ

-- Node::Status
pub data NodeStatus : Type 0 where
  idle running end_run : NodeStatus

pub data NodeResult : Type 0 where
  r_false r_true r_stop : NodeResult

-- What a waiting node is attached to. The ids of `wait_all` are the keys of a `std::map<int, bool>`.
pub data Attacher : Type 0 where
  detached : Attacher
  timer : ℕ → Attacher
  subchart : Ptr → Attacher
  wait_all : List (ℕ × Bool) → Attacher

-- The implementations of INodeContainer: a linked list, an executor, and the two lists of the
-- asynchronous manager.
pub data Container : Type 0 where
  linked : ℕ → Container
  executor : ℕ → Container
  async_waiting : Container
  async_active : Container

-- `node_data` is the index of the node's data in its chart's data.
pub record Node : Type 0 where
  pub id : ℕ
  pub pre_node_id : Option ℕ
  pub true_count : ℕ
  pub false_count : ℕ
  pub chart : Ptr
  pub node_data : ℕ
  pub result : NodeResult
  pub status : NodeStatus
  pub run_flag : Bool
  pub skip : Bool
  pub is_wait_all : Bool
  pub attacher : Attacher
  pub container : Option Container

abbrev pub new_node : Ptr → ℕ → ℕ → Node
new_node chart index id = record {
  id = id;
  pre_node_id = none;
  true_count = 0;
  false_count = 0;
  chart = chart;
  node_data = index;
  result = r_true;
  status = idle;
  run_flag = false;
  skip = false;
  is_wait_all = false;
  attacher = detached;
  container = none;
}

-- `is_running` is the two-valued Chart::Status.
pub record Chart : Type 0 where
  pub owner_node : Option Ptr
  pub data_ : Ptr
  pub agent : Option Ptr
  pub is_running : Bool
  pub node_list : List Ptr

abbrev pub new_chart : Chart
new_chart = record {
  owner_node = none;
  data_ = 0;
  agent = none;
  is_running = false;
  node_list = [];
}

-- `is_destroying` is the two-valued Agent::Status; `waiting_nodes_dict` gives the linked list of
-- each event id.
pub record Agent : Type 0 where
  pub id : ℕ
  pub game_object : ℕ
  pub tick_interval : ℕ
  pub is_destroying : Bool
  pub chart_dict : List (String × List Ptr)
  pub waiting_nodes_dict : List (ℕ × ℕ)

abbrev pub default_agent_tick : ℕ
default_agent_tick = 1000

abbrev pub new_agent : ℕ → Agent
new_agent game_object = record {
  id = 1;
  game_object = game_object;
  tick_interval = default_agent_tick;
  is_destroying = false;
  chart_dict = [];
  waiting_nodes_dict = [];
}

-- A DfsExecutor. The head of a list is the back of the vector.
pub record DfsExecutor : Type 0 where
  pub node_list : List Ptr
  pub history_nodes : List Ptr
  pub current_agent : Option Ptr
  pub current_node : Option Ptr

-- An AsyncEventBase, with the id of its agent.
pub record AsyncEvent : Type 0 where
  pub id : ℕ
  pub arg_count : ℕ
  pub agent_id : ℕ

pub data Timer : Type 0 where
  node_timer : Ptr → Timer
  agent_timer : Ptr → Timer

-- A call of the timer wheel, or a timer that it runs.
pub data WheelCall : Type 0 where
  schedule : Timer → ℕ → WheelCall
  cancel : Timer → WheelCall
  advance : ℕ → WheelCall
  fired : Timer → WheelCall

-- The manager and all that it owns. The stores give the object at a pointer, and `next_…` the next
-- pointer of an allocation. `wheel` lists the calls of the timer wheel, the latest first, and
-- `calls` counts the calls of user functions. `fault` records the dereference of a null pointer, an index out
-- of range, a bad cast or an iterator that may be invalid. The deletion of a chart that an executor runs is
-- recorded too, since the executor uses its node after it. Other than that, an object that was
-- deleted keeps its last values in the store, and its use is not recorded; `stuck` that a loop of the model ran out of fuel, and `overrun` that the
-- nesting of `run_flow` did.
pub record World : Type 0 where
  pub nodes : Ptr → Node
  pub next_node : Ptr
  pub charts : Ptr → Chart
  pub next_chart : Ptr
  pub agents : Ptr → Agent
  pub next_agent : Ptr
  pub lists : ℕ → List Ptr
  pub next_list : ℕ
  pub chart_datas : Ptr → ChartData
  pub chart_data_dict : List (String × Ptr)
  pub executors : ℕ → DfsExecutor
  pub current_index : ℕ
  pub waiting_nodes : List Ptr
  pub activate_nodes : List Ptr
  pub nodes_set : List Ptr
  pub in_event_list : List AsyncEvent
  pub out_event_list : List AsyncEvent
  pub event_info_list : List ℕ
  pub start_event : ℕ
  pub tick_event : ℕ
  pub current_event : Option AsyncEvent
  pub current_event_frame : ℕ
  pub agent_map : List (ℕ × Ptr)
  pub gameobject_map : List (ℕ × Ptr)
  pub agent_id_count : ℕ
  pub destroying_agents : List Ptr
  pub next_destroying_agents : List Ptr
  pub current_frame : ℕ
  pub in_step : Bool
  pub defer_event : Bool
  pub default_time_interval : ℕ
  pub node_stop_when_error : Bool
  pub wheel : List WheelCall
  pub calls : ℕ
  pub fault : Bool
  pub stuck : Bool
  pub overrun : Bool

abbrev pub modify_node : Ptr → (Node → Node) → World → World
modify_node p f w = record w { nodes = update w.nodes p (f (w.nodes p)) }

abbrev pub modify_chart : Ptr → (Chart → Chart) → World → World
modify_chart p f w = record w { charts = update w.charts p (f (w.charts p)) }

abbrev pub modify_agent : Ptr → (Agent → Agent) → World → World
modify_agent p f w = record w { agents = update w.agents p (f (w.agents p)) }

abbrev pub modify_executor : ℕ → (DfsExecutor → DfsExecutor) → World → World
modify_executor i f w = record w { executors = update w.executors i (f (w.executors i)) }

abbrev pub call_wheel : WheelCall → World → World
call_wheel c w = record w { wheel = c ∷ w.wheel }

-- Undefined behaviour of the source.
abbrev pub fault_at : World → World
fault_at w = record w { fault = true }

-- A loop of the model is out of fuel.
abbrev pub stuck_at : World → World
stuck_at w = record w { stuck = true }

-- The nesting of executors is out of fuel.
abbrev pub overrun_at : World → World
overrun_at w = record w { overrun = true }

-- Manager::MAX_EVENT_FRAME, DfsExecutor::MAX_NODES_PER_EXECUTION, StackExecutor::MAX_STACK_SIZE
abbrev pub max_event_frame : ℕ
max_event_frame = 16

abbrev pub max_nodes_per_execution : ℕ
max_nodes_per_execution = 1024

abbrev pub max_stack_size : ℕ
max_stack_size = 16

abbrev pub default_step_interval : ℕ
default_step_interval = 30

abbrev pub new_executor : DfsExecutor
new_executor = record {
  node_list = [];
  history_nodes = [];
  current_agent = none;
  current_node = none;
}

-- A manager as its constructor leaves it, with three events declared.
unfoldable pub new_manager : World
new_manager = record {
  nodes = λ p. new_node 0 0 0;
  next_node = 0;
  charts = λ p. new_chart;
  next_chart = 0;
  agents = λ p. new_agent 0;
  next_agent = 0;
  lists = λ l. [];
  next_list = 0;
  chart_datas = λ p. new_chart_data;
  chart_data_dict = [];
  executors = λ i. new_executor;
  current_index = 0;
  waiting_nodes = [];
  activate_nodes = [];
  nodes_set = [];
  in_event_list = [];
  out_event_list = [];
  event_info_list = 0 ∷ 0 ∷ 0 ∷ [];
  start_event = 1;
  tick_event = 2;
  current_event = none;
  current_event_frame = 0;
  agent_map = [];
  gameobject_map = [];
  agent_id_count = 0;
  destroying_agents = [];
  next_destroying_agents = [];
  current_frame = 0;
  in_step = false;
  defer_event = true;
  default_time_interval = default_step_interval;
  node_stop_when_error = false;
  wheel = [];
  calls = 0;
  fault = false;
  stuck = false;
  overrun = false;
}
