-- ===== src/Core.antt =====
-- The crate rsms-core: the types and the field codecs that every other crate builds on.
pub mod Error
pub mod Cstring
pub mod Pstring
mod Tests
pub mod Protocol
