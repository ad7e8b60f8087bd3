-- ===== src/Decode/Refine.antt =====
-- The decoder of decode.go against the reference decoder.
pub mod Copies
pub mod Windows
pub mod Steps
pub mod SameParse
pub mod ParseCopies
pub mod Parse
pub mod Literals
pub mod Round
pub mod FastParse
pub mod FastWrite
pub mod FastRound
pub mod Whole
