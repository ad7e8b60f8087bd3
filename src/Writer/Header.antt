-- ===== src/Writer/Header.antt =====
-- The identifier that writer.go puts in front of a stream, and ReadStream of internal/reference.
use minlz.Prelude.{ℕ, suc, List, ◌++◌, ◌≡◌, refl, length, arith, leb, true}
use minlz.Stream.Result.{failed, id_length}
use minlz.Stream.Read.{read_stream, read_loop, read_chunk, read_stream_id}
use minlz.Writer.Frame.{make_header}

-- Whatever the block size is, ReadStream refuses every stream that begins with the identifier that
-- the writer makes for it, for the length of that identifier.
pub read_stream-make_header :
    (crc : List ℕ → ℕ) (block_size : ℕ) (rest : List ℕ)
    → read_stream crc (make_header block_size ++ rest) ≡ failed id_length
unfolding read_stream make_header read_loop read_chunk read_stream_id
read_stream-make_header crc block_size rest =
    let fits : leb 6 (suc (suc (suc (suc (suc (suc (length rest))))))) ≡ true = ground arith in
    rw fits refl
