-- ===== src/Serialize.antt =====
-- tunnel/serialize.cpp: records to and from the tunnel's stream.
pub mod External
pub mod Words
pub mod Value
pub mod Nested
pub mod Cell
pub mod Record
mod Tests
