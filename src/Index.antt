-- ===== src/Index.antt =====
-- index.go: the seek index of a stream.
mod Tests
pub mod State
pub mod Spaced
pub mod Search
pub mod Find
pub mod Reset
pub mod Varint
pub mod Format
pub mod Entries
pub mod Binary
pub mod Headers
pub mod Reduce
pub mod RoundTrip
