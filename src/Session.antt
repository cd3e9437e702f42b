-- ===== src/Session.antt =====
-- crates/rsms-session: the phases of a connection, its context and its heartbeat timer.
pub mod Machine
pub mod Context
pub mod Heartbeat
pub mod Agreement
mod Tests
