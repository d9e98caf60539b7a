-- ===== src/Engine.antt =====
-- The engine's parts.
pub mod State
pub mod Containers
pub mod Lifecycle
pub mod WaitAll
pub mod Reach
pub mod Agents
pub mod Control
pub mod Run
pub mod Step
pub mod Frame
