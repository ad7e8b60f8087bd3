-- ===== src/Writer.antt =====
-- writer.go: the bytes around the blocks of a stream, without the writing.
mod Tests
pub mod Frame
pub mod Padding
pub mod Header
