-- ===== src/Stream.antt =====
-- internal/reference: the reader of streams (stream.go), and of the index in them (index.go).
mod Tests
pub mod Result
pub mod Load
pub mod Read
pub mod SameLoad
pub mod Frames
pub mod Ends
pub mod Inert
pub mod Outcome
