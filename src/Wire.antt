-- ===== src/Wire.antt =====
-- How the codecs read and write the fields of a body, and the rules for reading what was written.
pub mod Error
pub mod Fields
pub mod Trip
pub mod Strings
pub mod Body
pub mod Whole
pub mod Readers
