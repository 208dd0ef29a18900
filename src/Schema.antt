-- ===== src/Schema.antt =====
-- schema/: JSON values, and what a record's marker says of the record's payload.
pub mod Json
pub mod Reading
pub mod Kinds
pub mod Projection
pub mod Encoding
pub mod Unquote
pub mod Numerals
