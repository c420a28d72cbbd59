-- ===== src/Serialize/Nested.antt =====
-- tunnel/serialize.cpp: WriteNestedValue, WriteComplexValue, ReadNestedValue and ReadComplexValue,
-- the values inside arrays, maps and structs. A write takes the register of the record checksum and
-- returns the bytes appended with the new register; a read returns what is left of the input too.
pub mod Write
pub mod Read
pub mod Fits
pub mod Scalars
pub mod RoundTrip
