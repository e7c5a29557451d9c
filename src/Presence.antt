-- ===== src/Presence.antt =====
-- src/presence and include/presence.
pub mod CallEvent
pub mod Parser
pub mod TcpClient
pub mod Router
pub mod Failover
