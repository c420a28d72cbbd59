-- ===== src/TypeText.antt =====
-- common/complex_type_schema.cpp: the text of a column type, written by ToTypeString and read by
-- ParseTypeInfoString.
pub mod Print
pub mod Parse
pub mod Tokens
pub mod Names
pub mod Lexing
pub mod Parts
pub mod RoundTrip
pub mod Struct
mod Tests
