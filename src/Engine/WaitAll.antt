-- ===== src/Engine/WaitAll.antt =====
-- The barrier of Manager::WaitAll (NodeWaitAll in src/core/node_timer.cpp).
pub mod Defs
pub mod Barrier
unfoldable pub use Defs.{
  has_id, emplace_ids, init_ids, mark_id, all_marked, run_known, run_wait_all,
}
