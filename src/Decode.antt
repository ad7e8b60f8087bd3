-- ===== src/Decode.antt =====
-- decode.go: the block decoder minLZDecodeGo, over a destination of fixed size.
pub mod Machine
pub mod Checked
pub mod Fast
pub mod Left
pub mod Lengths
pub mod LeftLength
pub mod Refine
mod Tests
