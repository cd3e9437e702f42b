-- ===== src/Longmsg.antt =====
-- The crate rsms-longmsg: splitting a long message into segments and merging them again.
pub mod Frame
pub mod Bitmap
pub mod ReferenceId
pub mod Split
pub mod Merge
mod Tests
