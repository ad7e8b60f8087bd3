-- ===== src/Reference/Codes.antt =====
-- The bytes that the encoder emits for an operation are read back as that operation.
pub mod Literal
pub mod Copy
pub mod Copy3
pub mod Fused
pub mod Commands
pub mod Octets
