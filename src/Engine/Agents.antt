-- ===== src/Engine/Agents.antt =====
-- Agents, their charts and their waiting lists.
pub mod Defs
pub mod Charts
pub mod Registry
unfoldable pub use Defs.{
  get_event_args_count, find_wait_nodes, create_wait_nodes, get_wait_nodes, wait_event,
  get_chart_data, create_nodes, create_chart, add_chart, attach_chart_data, attach_chart,
  remove_chart, stop_chart_named, stop_charts, stop_dict, stop_agent, start_agent_timer,
  set_tick_interval, get_agent_by_id, get_agent, create_agent, add_agent, register_agent,
  register_game_object, unregister_agent, register_game_object, add_dying_agent,
  unregister_game_object,
}
