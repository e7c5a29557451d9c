-- ===== src/Subscription.antt =====
-- src/subscription and include/subscription.
pub mod Record
pub mod Registry
pub mod Uri
pub mod Index
pub mod Blf
pub mod Mwi
