-- ===== src/Reference.antt =====
-- internal/reference: the readable block decoder and encoder.
pub mod Reader
pub mod Decoder
pub mod Header
pub mod Emit
pub mod Returns
pub mod Encoder
pub mod Reads
pub mod Total
pub mod Run
pub mod Codes
pub mod RoundTrip
mod Tests
