-- ===== src/Dispatch/Worker.antt =====
-- DialogWorker of include/dispatch/dialog_worker.h and src/dispatch/dialog_worker.cpp.
pub mod State
pub mod Send
pub mod Events
pub mod Intake
pub mod Loop
pub mod Admin
pub mod Expires
pub mod Lifecycle
pub mod Tallies
pub mod Limits
pub mod Account
pub mod Fifo
pub mod Cleanup
pub mod Deindex
pub mod Home
pub mod Keys
