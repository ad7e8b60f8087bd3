-- ===== src/Reference/RoundTrip.antt =====
-- What the reference encoder writes, the reference decoder reads back.
pub mod Replay
pub mod Source
pub mod Emits
pub mod Copies
pub mod Search
pub mod Extend
pub mod Found
pub mod Loop
pub mod Size
pub mod Block
