-- ===== src/Level1.antt =====
-- encode_l1.go: the fastest encoder, encodeBlockGo and encodeBlockGo64K, and encodeBlock of
-- asm_none.go in front of them.
pub mod Tests
pub mod Words
pub mod Ends
pub mod Loads
pub mod Extend
pub mod Advance
pub mod Invariant
pub mod Pieces
pub mod Repeat
pub mod SearchRound
pub mod FoundRound
pub mod Immediate
pub mod AfterFound
pub mod RoundTrip
pub mod Overflow
pub mod Mismatch
pub mod Search
pub mod Found
pub mod Encode
