-- ===== src/Stream/Result.antt =====
-- The results of internal/reference/stream.go and internal/reference/index.go.
use minlz.Reference.Reader.{Error}

-- One constructor for each error. `truncated` stands for io.EOF and io.ErrUnexpectedEOF.
pub data StreamError : Type 0 where
  truncated : StreamError
  unknown_chunk_type invalid_header uncompressed_size compressed_size : StreamError
  estimated_size negative_estimate entry_count invalid_entry_count : StreamError
  invalid_has_uncompressed uncompressed_delta uncompressed_order : StreamError
  negative_uncompressed compressed_delta compressed_order negative_compressed : StreamError
  invalid_trailer : StreamError
  crc_mismatch uncompressed_short uncompressed_large compressed_short : StreamError
  decoding : Error → StreamError
  compressed_larger decoded_large eof_length eof_varint size_mismatch : StreamError
  id_length id_mismatch reserved_bits invalid_max_block : StreamError
  unskippable : StreamError

-- Go's (value, error) pair. `panics` is a panic of Go, and `stuck` is no Go value: a loop of the
-- model ran out of fuel.
pub data Read {ℓ} (A : Type ℓ) : Type ℓ where
  value : A → Read A
  failed : StreamError → Read A
  panics stuck : Read A

infixl 5 ◌>>=◌
abbrev pub ◌>>=◌ {ℓ κ} : {A : Type ℓ} {B : Type κ} → Read A → (A → Read B) → Read B
value a >>= f = f a
failed e >>= f = failed e
panics >>= f = panics
stuck >>= f = stuck
