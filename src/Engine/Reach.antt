-- ===== src/Engine/Reach.antt =====
-- The search of Manager::StopFlow (src/core/manager.cpp).
pub mod Defs
pub mod Search
pub mod Flow
unfoldable pub use Defs.{set_insert, drain_queue, connectors, flow_ids}
