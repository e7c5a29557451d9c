-- ===== src/Examples.antt =====
-- The theorems at concrete inputs.
mod Data
mod Tables
mod Worker
mod Dispatcher
mod Presence
mod Store
mod Front
mod Logging
mod Program
