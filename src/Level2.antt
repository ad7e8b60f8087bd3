-- ===== src/Level2.antt =====
-- encode_l2.go: the balanced encoder, encodeBlockBetterGo and encodeBlockBetterGo64K, and
-- encodeBlockBetter of asm_none.go in front of them.
pub mod Extend
pub mod Tables
pub mod Search
pub mod Found
pub mod Encode
pub mod Reaches
pub mod Below
pub mod Invariant
pub mod Repeat
pub mod Candidates
pub mod SearchRound
pub mod FoundRound
pub mod RoundTrip
mod Tests
