-- ===== src/Engine/Run.antt =====
-- What runs nodes.
pub mod Script
pub mod Events
pub mod Queue
pub mod Charts
pub mod Nodes
pub mod Executor
pub mod Restart
