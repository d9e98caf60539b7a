-- ===== src/Tests.antt =====
-- Small charts, and the theorems at work on them.
mod Demo
mod Runs
mod Loading
mod Links
mod Documents
mod Debugging
mod Requests
