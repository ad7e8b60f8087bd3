-- ===== src/Block.antt =====
-- decode.go: the blocks that Decode, AppendDecoded, DecodedLen and IsMinLZ take.
mod Tests
pub mod Header
pub mod Decode
pub mod Sizes
pub mod Sized
pub mod Agrees
pub mod Whole
pub mod Keeps
pub mod RoundTrip
