-- ===== src/Lib.antt =====
-- A model of the core of asyncflow, the engine that runs flowcharts for game objects, with theorems
-- about it.
--
-- A game object has an agent, an agent has charts, and a chart has nodes that run depth-first along
-- connectors. A node function may wait for a timer, an event, a subchart, a barrier or an
-- asynchronous context; the node is then left running and the flow goes on later, from the timer
-- wheel, from an event of the queue or from Manager::Step.
--
-- The parts, by file:
--   Base and below: lists, maps and Boolean tests on the native naturals.
--   ChartData: the data of charts and nodes (include/core/chart_data.h, include/core/node_data.h,
--     src/core/chart_data.cpp, src/core/node_data.cpp).
--   ChartData/Json, ChartData/Yaml, ChartData/YamlChart and ChartData/YamlPatch: loading a chart
--     from JSON and from YAML and patching it, over the members of the document that the code
--     reads. ChartData/Connectors, ChartData/YamlConnectors and ChartData/PatchConnectors are about
--     where the connectors lead; Ids, Placed, YamlNodes and Patched have their lemmas.
--   Uuid: the two forms of a uuid (src/util/file.cpp). Uuid/Random is Manager::uuid4_str.
--   LinkedList: the rings of nodes of include/util/list.h, on a store of pointers. Chain has the
--     rings, Insert and Remove the two writes, Refines the calls beside those on a list, Loops the
--     loops.
--   Library: the charts that are loaded (include/core/data_manager.h, ChartData::Update and the
--     destructor in src/core/chart_data.cpp). Import is Manager::ImportFile, PatchFromYaml and
--     ReloadChartData (src/core/manager.cpp). Versions has the chain of the versions of a chart,
--     Deleted the loads of a process and the deletions; Read, Reloaded, Loads, Imported and Loaded
--     have the lemmas on what each of them leaves.
--   Events: EventManager (src/core/event_manager.cpp, include/core/event_manager.h) and
--     Manager::ImportEvent. Declared is about the imports, Lookup about the lookups.
--   Debug: what the debugger writes (src/debug/json_debugger.cpp, include/debug/debug_common.h), as
--     the calls of the JSON writer. Messages has the replies and notifications, Grammar what calls
--     make one JSON text, Complete, Texts and Sent the texts of all messages, Infos the reading of
--     a chart's entry.
--   Sessions: the connections that debug charts (src/debug/websocket_manager.cpp) and the debug
--     members of charts (src/core/chart.cpp). Debugged, Kept, Ended and Operations are about each
--     operation, Calls about their sequences.
--   Handlers: the requests to the debugger (src/debug/json_debugger.cpp, src/debug/debugger.cpp,
--     Manager::GetDebugChartList and GetChartsByName in src/core/manager.cpp). Dispatch chooses the
--     handler, Answered is about charts that are there, Breakpoints about the functions of nodes,
--     Continued about the nodes that wait at one (src/core/async_manager.cpp,
--     src/core/node_func.cpp).
--   Engine/State: the objects of the engine, and one store `World` for the manager and all that it
--     owns. Pointers are numbers. The dereference of a null pointer, an index out of range, a bad
--     cast, an iterator that may be invalid and the deletion of a chart that is being run set the
--     flag `fault` of the store. The use of other deleted objects is not recorded: see below.
--   Engine/Containers: the lists that a node may be in (src/core/custom_struct.cpp).
--   Engine/Lifecycle: Node::Stop, Chart::Stop and the destructors (src/core/node.cpp,
--     src/core/chart.cpp, src/core/node_timer.cpp), Agent::FindChart and EraseChart. Calms has what
--     a stop leaves of every node and chart, Idle the stop through the subcharts.
--   Engine/WaitAll: the barrier NodeWaitAll (src/core/node_timer.cpp).
--   Engine/Reach: the search of Manager::StopFlow (src/core/manager.cpp).
--   Engine/Agents: agents, their charts and the registry (src/core/agent.cpp,
--     include/core/agent_manager.h).
--   Engine/Control: the functions that a node function calls and that run no other node
--     (src/core/manager.cpp, src/core/async_manager.cpp).
--   Engine/Run: what runs nodes. Script is a node function of the scripting language as the engine
--     sees it; Events, Charts, Nodes and Executor are src/core/manager.cpp, src/core/agent.cpp,
--     src/core/chart.cpp, src/core/node.cpp and src/core/executor.cpp. Running a flow calls node
--     functions, which may run further flows: these modules take Manager::RunFlow as the parameter
--     `flow`, and Executor closes the recursion in `run_flow`.
--   Engine/Step: Manager::Step and its parts (src/core/manager.cpp, src/core/async_manager.cpp,
--     src/core/timer_manager.cpp, include/core/event_queue.h, include/core/dying_agents.h).
--   Engine/Run/Restart: Manager::RestartChart (src/core/manager.cpp).
--   Engine/Run/Queue: the order of the queue of events.
--   Engine/Frame: the fields of the manager that nest with the flows, and the settings, part by
--     part.
--   Tests: a chart that is run to its end by evaluation, and the theorems at concrete values.
--
-- Parameters. `behaviour` gives what a user function does at each call: any sequence of the calls
-- of the type Call in Engine/Run/Script, each depending on the replies before it, and any result.
-- `due` is the timer that the timer wheel, a third-party library, runs next, from the calls made to
-- it so far. `create_node_func` makes a node function of its code and name. `read_file`, `parse`,
-- `parse_yaml` and `stoi` are the reader of files, the parsers of rapidjson and ryml and std::stoi,
-- `draw` the generator of random numbers; `lock` and `throws` tell for each connection of the
-- debugger what its weak pointer locks and whether a send to it fails; `to_string`, `contains`,
-- `agent_name` and `chart_uid` are std::to_string, the search of a text in another, and the names
-- and uuids of agents and charts. No theorem assumes a property of these parameters.
--
-- Fuel. The nesting of run_flow has the 16 levels of the executor stack as fuel, which is enough
-- since the code tests the depth of the stack first. The search of StopFlow has the number of
-- connectors of the chart as fuel, which is enough since it follows each connector once. The loop
-- of an executor has its limit of 1024 nodes, the source's own. Stopping and deleting charts
-- descend through subcharts, on the number of charts created as fuel; the loops of a step take
-- their fuel as an argument, since a node function may add work for ever. Running out is recorded
-- in the flag `stuck`. The loops over a ring need as much fuel as it has nodes, and the deletion of
-- a chart one more than its version.
--
-- Not modelled: the life of objects, but for one case: the deletion of a chart that an executor
-- runs is recorded in `fault`, since DfsExecutor::RunFlow (src/core/executor.cpp) uses the deleted
-- node afterwards, as when a node function removes its own chart. Every other deleted object keeps
-- its last values in the store, and a use of it is not recorded. After a fault the model runs on
-- where the source is undefined. Nor are the calls of the interface that the bindings export and do
-- not refuse in a node function, but that the type Call leaves out: step, setup, exit,
-- import_event, import_charts, patch, set_error_handler, config_log, set_logger, set_node_func,
-- set_var and set_callback, of the module and of the manager class (src/lua/export_lua.cpp). What is said of flows,
-- steps and restarts is of node functions without these calls; one that calls step or import_event
-- changes the frame counter or the declared events. Further: the debugger's requests to run scripts
-- (gm, hotfix); the server's port and the polling of the network; the values of the scripting
-- language (arguments, variables, reference counts), which belong to the bindings under src/lua,
-- src/py and src/js; ENABLE_PERF, which observes; logging. The engine's runs leave out what the
-- code under FLOWCHART_DEBUG records, which Sessions has on its own. The order of an unordered_map
-- is the order of insertion.
pub mod Base
pub mod ChartData
pub mod Uuid
pub mod LinkedList
pub mod Library
pub mod Events
pub mod Debug
pub mod Sessions
pub mod Handlers
pub mod Engine
mod Tests
