-- ===== src/Persistence.antt =====
-- src/persistence: the subscription store and what it uses of MongoDB.
pub mod Pool
pub mod Client
pub mod Store
