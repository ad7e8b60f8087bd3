-- ===== src/Emit.antt =====
-- asm_none.go and encode.go: the emissions of the encoders, which write to a slice of fixed size.
pub mod Buffer
pub mod Write
pub mod Same
pub mod SameLiterals
pub mod SameFused
mod Tests
