-- ===== src/Stream/Tests.antt =====
-- Concrete streams, and the lemmas on them. The checksum is that of a run of zeros.
use minlz.Prelude.{ℕ, List, [], ◌∷◌, ◌≡◌, refl, arith}
use minlz.Index.Binary.{load}
use minlz.Stream.Result.{failed, panics, id_length}
use minlz.Stream.Load.{load_index}
use minlz.Stream.Read.{initial, read_chunk, read_loop, read_stream, read_stream_id}
use minlz.Stream.SameLoad.{Same, SameIndex, load_index-Same}
use minlz.Stream.Frames.{Chunk, serialize, accept, read_stream-serialize}
use minlz.Stream.Ends.{Ends}
use minlz.Stream.Outcome.{IsIdle, IsBroken, read_stream-Ends}

abbrev crc : List ℕ → ℕ
crc b = 0

-- An index of two entries.
abbrev index : List ℕ
index =
    64 ∷ 25 ∷ 0 ∷ 0 ∷ 115 ∷ 50 ∷ 105 ∷ 100 ∷ 120 ∷ 0 ∷ 60 ∷ 36 ∷ 16 ∷ 4 ∷ 1 ∷ 0 ∷ 8 ∷ 20 ∷ 2 ∷ 29
    ∷ 0 ∷ 0 ∷ 0 ∷ 0 ∷ 120 ∷ 100 ∷ 105 ∷ 50 ∷ 115 ∷ []

load_index-Same_example : Same SameIndex (load index) (load_index index)
load_index-Same_example = load_index-Same index (λ e. ground arith)

-- A skipped chunk, and the end of a stream of size 0.
abbrev chunks : List Chunk
chunks = record { kind = 128; body = 7 ∷ [] } ∷ record { kind = 32; body = 0 ∷ [] } ∷ []

read_stream-serialize_example : read_stream crc (serialize chunks) ≡ accept crc initial chunks
read_stream-serialize_example = read_stream-serialize crc chunks (omega arith, (omega arith, tt))

-- The identifier of every MinLZ stream, with blocks of 2^10 bytes at most.
abbrev identifier : List ℕ
identifier = 255 ∷ 6 ∷ 0 ∷ 0 ∷ 77 ∷ 105 ∷ 110 ∷ 76 ∷ 122 ∷ 0 ∷ []

identifier_sample : read_stream crc identifier ≡ failed id_length
unfolding read_stream read_loop read_chunk read_stream_id
identifier_sample = refl

short_identifier_sample : read_stream crc (255 ∷ 4 ∷ 0 ∷ 0 ∷ 77 ∷ 105 ∷ 110 ∷ 76 ∷ []) ≡ panics
unfolding read_stream read_loop read_chunk read_stream_id
short_identifier_sample = refl

read_stream-Ends_example :
    Ends
      (λ st. IsIdle (serialize chunks))
      (IsBroken (serialize chunks))
      (read_stream crc (serialize chunks))
read_stream-Ends_example = read_stream-Ends crc (serialize chunks) (omega arith)
