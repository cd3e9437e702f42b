-- ===== src/Smgp.antt =====
-- crates/rsms-codec-smgp: the codec of SMGP.
pub mod Command
pub mod PduHeader
pub mod Tlv
pub mod Params
pub mod Loop
pub mod Strings
pub mod MsgId
pub mod Login
pub mod Simple
pub mod Submit
pub mod Deliver
pub mod Query
pub mod Pdu
pub mod Message
pub mod RoundTrip
mod Tests
