-- ===== src/Engine/Frame/Restart.antt =====
-- The core of the manager (Frame/Core) under Manager::RestartChart.
use asyncflow.Engine.Run.Script.{Script}
