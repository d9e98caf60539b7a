-- ===== src/Tests/Demo.antt =====
-- A small chart, run to the end of two steps.
use asyncflow.Base.{
  lookup, insert, delete, find_name, put_name, ℕ, ◌≡◌, refl, true, false, none, some, List, [], ◌∷◌,
  ◌==◌, if◌then◌else◌,
}
use asyncflow.Engine.State.{new_manager, World, r_true}
use asyncflow.Engine.Containers.{
  container_remove, leave_container, append_to, push, list_pop, list_swap_out, active_pop,
  in_executor, executor_pop, executor_remove,
}
use asyncflow.Engine.Lifecycle.{
  data_of_chart, data_of_node, chart_name, reset_ids, stop_attacher, stop_node_with,
  stop_nodes_with, stop_chart_fuel, stop_chart, stop_node, same_owner, find_owner, charts_named,
  find_chart, erase_first, erase_chart, delete_attacher, set_attacher_with, delete_nodes_with,
  leave_agent, leave_owner, is_executed, check_executed, delete_chart_fuel, delete_chart,
  set_attacher,
}
use asyncflow.Engine.Control.{
  get_current_node, get_node, register_timer, start_timer, wait, run_barrier, enter_barrier,
  wait_for_all, halt_node, halt_nodes, stop_ids, stop_nodes, children, node_id_at, stop_flow,
  wait_for_event, add_async_node, remove_async_node, is_active, activate_node, create_async_context,
  continue_async_node, cancel_async_node,
}
use asyncflow.Engine.Step.{
  release_nodes, release_lists, delete_named, delete_dict, delete_agent, delete_agents, dying_step,
  switch, next_event, execute, fire_timers, timer_step, resume_node, async_step, event_loop, step,
}
use asyncflow.Engine.WaitAll.{
  has_id, emplace_ids, init_ids, mark_id, all_marked, run_known, run_wait_all,
}
use asyncflow.Engine.Reach.{set_insert, drain_queue, connectors, flow_ids}
use asyncflow.Engine.Agents.{
  get_event_args_count, find_wait_nodes, create_wait_nodes, get_wait_nodes, wait_event,
  get_chart_data, create_nodes, create_chart, add_chart, attach_chart_data, attach_chart,
  remove_chart, stop_chart_named, stop_charts, stop_dict, stop_agent, start_agent_timer,
  get_agent_by_id, get_agent, create_agent, add_agent, register_agent, unregister_agent,
  add_dying_agent, unregister_game_object,
}
use asyncflow.Engine.Run.Script.{Script, done, act, call_async, call_continue, call_remove}
use asyncflow.Engine.Run.Events.{
  get_waiting_nodes, add_event, run_waiting, handle_list, handle_event, trigger_event, raise_event,
  event,
}
use asyncflow.Engine.Run.Charts.{
  new_subchart, choose_subchart, continue_flow, resume_owner, chart_return, wait_start, launch,
  start_chart, start_chart_named, start_if_stopped, created_of, iterators_kept, start_charts,
  start_dict, start_agent, call_subchart, return_current,
}
use asyncflow.Engine.Run.Nodes.{control_call, do_call, run_script, call_func, run_node}
use asyncflow.Engine.Run.Executor.{
  push_children, count_result, add_subsequence_nodes, after_run, drain_executor, restore_nodes,
  any_running, finish_chart, dfs_round, dfs_loop, dfs_run, dfs_run_flow, stack_run_flow,
  run_flow_fuel, run_flow,
}
use asyncflow.ChartData.{
  get_subsequence_ids, add_subsequence, set_children, get_node_count, get_node_data, get_var_index,
  NodeData, new_node_data, ChartData, new_chart_data, user,
}
use asyncflow.Engine.Agents.Registry.{IsRegistry, new_manager-IsRegistry, register_agent_lem}

abbrev leaf : ℕ → ℕ → List ℕ → NodeData
leaf id f next = record (new_node_data id) { node_func = user f; on_success = next; on_fail = next }

-- A start node, a node of the function 5 and one of the function 6.
abbrev main_chart : ChartData
main_chart = record new_chart_data {
  chart_name = "main";
  node_list =
      record (new_node_data 0) { on_success = 1 ∷ 2 ∷ []; on_fail = 1 ∷ [] }
      ∷ leaf 1 5 []
      ∷ leaf 2 6 []
      ∷ [];
}

unfoldable loaded : World
loaded = record new_manager { chart_datas = λ p. main_chart; chart_data_dict = ("main", 0) ∷ [] }

-- The function 5 asks for an asynchronous context; the function 6 goes on with it.
pub demo : ℕ → ℕ → Script
demo f n =
    if f == 5 then act call_async (λ r. done r_true) else act (call_continue 1) (λ r. done r_true)

-- An agent with the chart, which is started.
pub started : World
started = start_agent (run_flow demo) 0 (attach_chart 0 "main" (register_agent 77 loaded).0).0

pub stepped : World
stepped = step demo (λ c. none) 10 (some 30) started

unfoldable stepped_twice : World
stepped_twice = step demo (λ c. none) 10 (some 30) stepped

-- After the first step the node of the function 5 is ready to go on, and after the second the chart
-- has ended.
stepped-activate_nodes :
    (stepped.calls ≡ 2)
    × (stepped.activate_nodes ≡ 1 ∷ [])
    × ((stepped.charts 0).is_running ≡ true)
    × (stepped.fault ≡ false)
    × (stepped.stuck ≡ false)
unfolding stepped started demo loaded lookup insert delete find_name put_name new_manager
    container_remove leave_container append_to push list_pop list_swap_out active_pop in_executor
    executor_pop executor_remove data_of_chart data_of_node chart_name reset_ids stop_attacher
    stop_node_with stop_nodes_with stop_chart_fuel stop_chart stop_node same_owner find_owner
    charts_named find_chart erase_first erase_chart delete_attacher set_attacher_with
    delete_nodes_with leave_agent leave_owner is_executed check_executed delete_chart_fuel
    delete_chart set_attacher get_current_node get_node register_timer start_timer wait run_barrier
    enter_barrier wait_for_all halt_node halt_nodes stop_ids stop_nodes children node_id_at
    stop_flow wait_for_event add_async_node remove_async_node is_active activate_node
    create_async_context continue_async_node cancel_async_node release_nodes release_lists
    delete_named delete_dict delete_agent delete_agents dying_step switch next_event execute
    fire_timers timer_step resume_node async_step event_loop step has_id emplace_ids init_ids
    mark_id all_marked run_known run_wait_all set_insert drain_queue connectors flow_ids
    get_event_args_count find_wait_nodes create_wait_nodes get_wait_nodes wait_event get_chart_data
    create_nodes create_chart add_chart attach_chart_data attach_chart remove_chart stop_chart_named
    stop_charts stop_dict stop_agent start_agent_timer get_agent_by_id get_agent create_agent
    add_agent register_agent unregister_agent add_dying_agent unregister_game_object
    get_waiting_nodes add_event run_waiting handle_list handle_event trigger_event raise_event event
    new_subchart choose_subchart continue_flow resume_owner chart_return wait_start launch
    start_chart start_chart_named start_if_stopped created_of iterators_kept start_charts start_dict
    start_agent call_subchart return_current control_call do_call run_script call_func run_node
    push_children count_result add_subsequence_nodes after_run drain_executor restore_nodes
    any_running finish_chart dfs_round dfs_loop dfs_run dfs_run_flow stack_run_flow run_flow_fuel
    run_flow get_subsequence_ids add_subsequence set_children get_node_count get_node_data
    get_var_index
stepped-activate_nodes = (refl, refl, refl, refl, refl)

stepped_twice-is_running :
    (stepped_twice.calls ≡ 2)
    × (stepped_twice.activate_nodes ≡ [])
    × ((stepped_twice.charts 0).is_running ≡ false)
    × (stepped_twice.fault ≡ false)
unfolding stepped_twice stepped started demo loaded lookup insert delete find_name put_name
    new_manager container_remove leave_container append_to push list_pop list_swap_out active_pop
    in_executor executor_pop executor_remove data_of_chart data_of_node chart_name reset_ids
    stop_attacher stop_node_with stop_nodes_with stop_chart_fuel stop_chart stop_node same_owner
    find_owner charts_named find_chart erase_first erase_chart delete_attacher set_attacher_with
    delete_nodes_with leave_agent leave_owner is_executed check_executed delete_chart_fuel
    delete_chart set_attacher get_current_node get_node register_timer start_timer wait run_barrier
    enter_barrier wait_for_all halt_node halt_nodes stop_ids stop_nodes children node_id_at
    stop_flow wait_for_event add_async_node remove_async_node is_active activate_node
    create_async_context continue_async_node cancel_async_node release_nodes release_lists
    delete_named delete_dict delete_agent delete_agents dying_step switch next_event execute
    fire_timers timer_step resume_node async_step event_loop step has_id emplace_ids init_ids
    mark_id all_marked run_known run_wait_all set_insert drain_queue connectors flow_ids
    get_event_args_count find_wait_nodes create_wait_nodes get_wait_nodes wait_event get_chart_data
    create_nodes create_chart add_chart attach_chart_data attach_chart remove_chart stop_chart_named
    stop_charts stop_dict stop_agent start_agent_timer get_agent_by_id get_agent create_agent
    add_agent register_agent unregister_agent add_dying_agent unregister_game_object
    get_waiting_nodes add_event run_waiting handle_list handle_event trigger_event raise_event event
    new_subchart choose_subchart continue_flow resume_owner chart_return wait_start launch
    start_chart start_chart_named start_if_stopped created_of iterators_kept start_charts start_dict
    start_agent call_subchart return_current control_call do_call run_script call_func run_node
    push_children count_result add_subsequence_nodes after_run drain_executor restore_nodes
    any_running finish_chart dfs_round dfs_loop dfs_run dfs_run_flow stack_run_flow run_flow_fuel
    run_flow get_subsequence_ids add_subsequence set_children get_node_count get_node_data
    get_var_index
stepped_twice-is_running = (refl, refl, refl, refl)

pub started-current_index : started.current_index ≡ 0
unfolding started demo loaded lookup insert delete find_name put_name new_manager container_remove
    leave_container append_to push list_pop list_swap_out active_pop in_executor executor_pop
    executor_remove data_of_chart data_of_node chart_name reset_ids stop_attacher stop_node_with
    stop_nodes_with stop_chart_fuel stop_chart stop_node same_owner find_owner charts_named
    find_chart erase_first erase_chart delete_attacher set_attacher_with delete_nodes_with
    leave_agent leave_owner is_executed check_executed delete_chart_fuel delete_chart set_attacher
    get_current_node get_node register_timer start_timer wait run_barrier enter_barrier wait_for_all
    halt_node halt_nodes stop_ids stop_nodes children node_id_at stop_flow wait_for_event
    add_async_node remove_async_node is_active activate_node create_async_context
    continue_async_node cancel_async_node release_nodes release_lists delete_named delete_dict
    delete_agent delete_agents dying_step switch next_event execute fire_timers timer_step
    resume_node async_step event_loop step has_id emplace_ids init_ids mark_id all_marked run_known
    run_wait_all set_insert drain_queue connectors flow_ids get_event_args_count find_wait_nodes
    create_wait_nodes get_wait_nodes wait_event get_chart_data create_nodes create_chart add_chart
    attach_chart_data attach_chart remove_chart stop_chart_named stop_charts stop_dict stop_agent
    start_agent_timer get_agent_by_id get_agent create_agent add_agent register_agent
    unregister_agent add_dying_agent unregister_game_object get_waiting_nodes add_event run_waiting
    handle_list handle_event trigger_event raise_event event new_subchart choose_subchart
    continue_flow resume_owner chart_return wait_start launch start_chart start_chart_named
    start_if_stopped created_of iterators_kept start_charts start_dict start_agent call_subchart
    return_current control_call do_call run_script call_func run_node push_children count_result
    add_subsequence_nodes after_run drain_executor restore_nodes any_running finish_chart dfs_round
    dfs_loop dfs_run dfs_run_flow stack_run_flow run_flow_fuel run_flow get_subsequence_ids
    add_subsequence set_children get_node_count get_node_data get_var_index
started-current_index = refl

pub registered : World
registered = (register_agent 77 new_manager).0

pub registered-IsRegistry : IsRegistry registered
unfolding registered
registered-IsRegistry = (register_agent_lem 77 new_manager new_manager-IsRegistry).0

pub registered-gameobject_map :
    lookup (registered.agents 0).game_object registered.gameobject_map ≡ some 0
unfolding registered lookup insert delete find_name put_name new_manager container_remove
    leave_container append_to push list_pop list_swap_out active_pop in_executor executor_pop
    executor_remove data_of_chart data_of_node chart_name reset_ids stop_attacher stop_node_with
    stop_nodes_with stop_chart_fuel stop_chart stop_node same_owner find_owner charts_named
    find_chart erase_first erase_chart delete_attacher set_attacher_with delete_nodes_with
    leave_agent leave_owner is_executed check_executed delete_chart_fuel delete_chart set_attacher
    get_current_node get_node register_timer start_timer wait run_barrier enter_barrier wait_for_all
    halt_node halt_nodes stop_ids stop_nodes children node_id_at stop_flow wait_for_event
    add_async_node remove_async_node is_active activate_node create_async_context
    continue_async_node cancel_async_node release_nodes release_lists delete_named delete_dict
    delete_agent delete_agents dying_step switch next_event execute fire_timers timer_step
    resume_node async_step event_loop step has_id emplace_ids init_ids mark_id all_marked run_known
    run_wait_all set_insert drain_queue connectors flow_ids get_event_args_count find_wait_nodes
    create_wait_nodes get_wait_nodes wait_event get_chart_data create_nodes create_chart add_chart
    attach_chart_data attach_chart remove_chart stop_chart_named stop_charts stop_dict stop_agent
    start_agent_timer get_agent_by_id get_agent create_agent add_agent register_agent
    unregister_agent add_dying_agent unregister_game_object get_waiting_nodes add_event run_waiting
    handle_list handle_event trigger_event raise_event event new_subchart choose_subchart
    continue_flow resume_owner chart_return wait_start launch start_chart start_chart_named
    start_if_stopped created_of iterators_kept start_charts start_dict start_agent call_subchart
    return_current control_call do_call run_script call_func run_node push_children count_result
    add_subsequence_nodes after_run drain_executor restore_nodes any_running finish_chart dfs_round
    dfs_loop dfs_run dfs_run_flow stack_run_flow run_flow_fuel run_flow get_subsequence_ids
    add_subsequence set_children get_node_count get_node_data get_var_index
registered-gameobject_map = refl

-- The chart of the demo is owned by no node; a second chart of the same name and owner is refused.
pub started-owner_node : (started.charts 0).owner_node ≡ none
unfolding started demo loaded lookup insert delete find_name put_name new_manager container_remove
    leave_container append_to push list_pop list_swap_out active_pop in_executor executor_pop
    executor_remove data_of_chart data_of_node chart_name reset_ids stop_attacher stop_node_with
    stop_nodes_with stop_chart_fuel stop_chart stop_node same_owner find_owner charts_named
    find_chart erase_first erase_chart delete_attacher set_attacher_with delete_nodes_with
    leave_agent leave_owner is_executed check_executed delete_chart_fuel delete_chart set_attacher
    get_current_node get_node register_timer start_timer wait run_barrier enter_barrier wait_for_all
    halt_node halt_nodes stop_ids stop_nodes children node_id_at stop_flow wait_for_event
    add_async_node remove_async_node is_active activate_node create_async_context
    continue_async_node cancel_async_node release_nodes release_lists delete_named delete_dict
    delete_agent delete_agents dying_step switch next_event execute fire_timers timer_step
    resume_node async_step event_loop step has_id emplace_ids init_ids mark_id all_marked run_known
    run_wait_all set_insert drain_queue connectors flow_ids get_event_args_count find_wait_nodes
    create_wait_nodes get_wait_nodes wait_event get_chart_data create_nodes create_chart add_chart
    attach_chart_data attach_chart remove_chart stop_chart_named stop_charts stop_dict stop_agent
    start_agent_timer get_agent_by_id get_agent create_agent add_agent register_agent
    unregister_agent add_dying_agent unregister_game_object get_waiting_nodes add_event run_waiting
    handle_list handle_event trigger_event raise_event event new_subchart choose_subchart
    continue_flow resume_owner chart_return wait_start launch start_chart start_chart_named
    start_if_stopped created_of iterators_kept start_charts start_dict start_agent call_subchart
    return_current control_call do_call run_script call_func run_node push_children count_result
    add_subsequence_nodes after_run drain_executor restore_nodes any_running finish_chart dfs_round
    dfs_loop dfs_run dfs_run_flow stack_run_flow run_flow_fuel run_flow get_subsequence_ids
    add_subsequence set_children get_node_count get_node_data get_var_index
started-owner_node = refl

-- Each function removes the chart that runs it, and the executor goes on with the deleted node: the
-- first call of the step is a fault.
self_remover : ℕ → ℕ → Script
self_remover f n = act (call_remove 0 "main") (λ r. done r_true)

removed : World
removed = step self_remover (λ c. none) 10 (some 30) started

removed-fault : (removed.calls ≡ 1) × (removed.fault ≡ true) × (removed.stuck ≡ false)
unfolding removed started demo self_remover loaded lookup insert delete find_name put_name
    new_manager container_remove leave_container append_to push list_pop list_swap_out active_pop
    in_executor executor_pop executor_remove data_of_chart data_of_node chart_name reset_ids
    stop_attacher stop_node_with stop_nodes_with stop_chart_fuel stop_chart stop_node same_owner
    find_owner charts_named find_chart erase_first erase_chart delete_attacher set_attacher_with
    delete_nodes_with leave_agent leave_owner is_executed check_executed delete_chart_fuel
    delete_chart set_attacher get_current_node get_node register_timer start_timer wait run_barrier
    enter_barrier wait_for_all halt_node halt_nodes stop_ids stop_nodes children node_id_at
    stop_flow wait_for_event add_async_node remove_async_node is_active activate_node
    create_async_context continue_async_node cancel_async_node release_nodes release_lists
    delete_named delete_dict delete_agent delete_agents dying_step switch next_event execute
    fire_timers timer_step resume_node async_step event_loop step has_id emplace_ids init_ids
    mark_id all_marked run_known run_wait_all set_insert drain_queue connectors flow_ids
    get_event_args_count find_wait_nodes create_wait_nodes get_wait_nodes wait_event get_chart_data
    create_nodes create_chart add_chart attach_chart_data attach_chart remove_chart stop_chart_named
    stop_charts stop_dict stop_agent start_agent_timer get_agent_by_id get_agent create_agent
    add_agent register_agent unregister_agent add_dying_agent unregister_game_object
    get_waiting_nodes add_event run_waiting handle_list handle_event trigger_event raise_event event
    new_subchart choose_subchart continue_flow resume_owner chart_return wait_start launch
    start_chart start_chart_named start_if_stopped created_of iterators_kept start_charts start_dict
    start_agent call_subchart return_current control_call do_call run_script call_func run_node
    push_children count_result add_subsequence_nodes after_run drain_executor restore_nodes
    any_running finish_chart dfs_round dfs_loop dfs_run dfs_run_flow stack_run_flow run_flow_fuel
    run_flow get_subsequence_ids add_subsequence set_children get_node_count get_node_data
    get_var_index
removed-fault = (refl, refl, refl)
