-- ===== src/Dispatch.antt =====
-- src/dispatch and include/dispatch.
pub mod World
pub mod Worker
pub mod Dispatcher
pub mod Reaper
