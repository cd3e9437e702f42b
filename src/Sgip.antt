-- ===== src/Sgip.antt =====
-- crates/rsms-codec-sgip: the codec of SGIP.
pub mod Command
pub mod Sequence
pub mod PduHeader
pub mod Bind
pub mod Unbind
pub mod Submit
pub mod Deliver
pub mod Report
pub mod Pdu
pub mod Message
pub mod ReadBack
mod Tests
