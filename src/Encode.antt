-- ===== src/Encode.antt =====
-- encode.go: Encode, AppendEncoded and TryEncode.
pub mod Entry
pub mod Header
pub mod Compress
pub mod RoundTrip
pub mod Append
mod Tests
