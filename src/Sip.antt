-- ===== src/Sip.antt =====
-- src/sip and include/sip: SIP events, dialog identifiers.
pub mod Event
pub mod Callback
pub mod DialogId
pub mod Stack
