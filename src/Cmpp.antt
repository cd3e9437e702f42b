-- ===== src/Cmpp.antt =====
-- crates/rsms-codec-cmpp: the codec of CMPP.
pub mod Command
pub mod Header
pub mod PduHeader
pub mod Connect
pub mod Simple
pub mod Query
pub mod Submit
pub mod Responses
pub mod Deliver
pub mod SubmitV20
pub mod DeliverV20
pub mod Pdu
pub mod Registry
pub mod Message
pub mod Sent
pub mod Entries
pub mod RoundTrip
mod Tests
