-- ===== src/Engine/Frame.antt =====
-- The core of the manager, part by part: the depth of the executor stack, the nesting of
-- triggered events, the frame counter and the settings.
pub mod Core
pub mod Lifecycle
pub mod Agents
pub mod Control
pub mod Events
pub mod Charts
pub mod Nodes
pub mod Executor
pub mod Restart
pub mod Step
