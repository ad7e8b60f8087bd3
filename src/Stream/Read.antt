-- ===== src/Stream/Read.antt =====
-- ReadStream of internal/reference/stream.go. An io.Reader is the list of the bytes that it gives,
-- and `crc` is crc32.Update from 0 with the Castagnoli table.
use minlz.Prelude.{ℕ, zero, suc, ◌+◌, ◌*◌, ◌/◌, ◌%◌, ◌^◌, bit_or, List, [], ◌∷◌, Bool, none, some}
use minlz.Prelude.{length, take, drop, ltb, leb, ◌==◌, if◌then◌else◌}
use minlz.Bytes.{u32, le24, le32}
use minlz.Reference.Reader
use minlz.Reference.Reader.{Result, ok, err, panic}
use minlz.Reference.Decoder.{max_block_size}
use minlz.Reference.Header.{decode_block}
use minlz.Block.Header.{uvarint}
use minlz.Index.Binary.{equal}
use minlz.Stream.Load.{load_index_after_header}
use minlz.Stream.Result.{
  StreamError, Read, value, failed, panics, stuck, ◌>>=◌, truncated, crc_mismatch,
  uncompressed_short, uncompressed_large, compressed_short, decoding, compressed_larger,
  decoded_large, eof_length, eof_varint, size_mismatch, id_length, id_mismatch, reserved_bits,
  invalid_max_block, unskippable,
}

-- readMaxBlockSize and decompressedSize
pub record State : Type 0 where
  pub max_block : ℕ
  pub decompressed : ℕ

abbrev pub initial : State
initial = record { max_block = 0; decompressed = 0 }

abbrev pub magic_body : List ℕ
magic_body = 77 ∷ 105 ∷ 110 ∷ 76 ∷ 122 ∷ []

-- verifyChecksum
unfoldable pub verify_checksum : (crc : List ℕ → ℕ) → List ℕ → (want : ℕ) → Bool
verify_checksum crc b want =
    let c = u32 (crc b) in u32 (bit_or (c / 2 ^ 15) (u32 (c * 2 ^ 17)) + 0xa282ead8) == want

-- The checksum, and the data behind it.
unfoldable pub split_checksum : StreamError → List ℕ → Read (ℕ × List ℕ)
unfolding le32
split_checksum e (a ∷ b ∷ c ∷ d ∷ chunk) = value (le32 a b c d, chunk)
split_checksum e chunk = failed e

unfoldable pub decode_chunk : List ℕ → Read (List ℕ)
unfolding decode_block
decode_chunk b = elim (decode_block b) [
  | ok out ↦ value out
  | err e ↦ failed (decoding e)
  | panic ↦ panics
  | Reader.stuck ↦ stuck
]

abbrev pub add_size : State → List ℕ → State
add_size st out = record st { decompressed = st.decompressed + length out }

-- The two tests of the size of a decoded block.
unfoldable pub check_size : State → (chunk decoded : List ℕ) → Read (List ℕ)
check_size st chunk decoded =
    if ltb (length decoded) (length chunk)
    then failed compressed_larger
    else if ltb st.max_block (length decoded)
    then failed decoded_large
    else value decoded

unfoldable pub read_uncompressed : (crc : List ℕ → ℕ) → State → List ℕ → Read State
unfolding split_checksum verify_checksum
read_uncompressed crc st body = split_checksum uncompressed_short body >>= λ r.
    if verify_checksum crc r.1 r.0
    then if ltb st.max_block (length r.1)
      then failed uncompressed_large
      else value (add_size st r.1)
    else failed crc_mismatch

-- ChunkMinLZBlock
unfoldable pub read_minlz_block : (crc : List ℕ → ℕ) → State → List ℕ → Read State
unfolding split_checksum decode_chunk check_size verify_checksum
read_minlz_block crc st body = split_checksum compressed_short body >>= λ r.
    decode_chunk r.1 >>= λ out. check_size st r.1 out >>= λ decoded.
    if verify_checksum crc decoded r.0 then value (add_size st decoded) else failed crc_mismatch

-- ChunkMinLZCompCRC
unfoldable pub read_minlz_comp_crc : (crc : List ℕ → ℕ) → State → List ℕ → Read State
unfolding split_checksum decode_chunk check_size verify_checksum
read_minlz_comp_crc crc st body = split_checksum compressed_short body >>= λ r.
    if verify_checksum crc r.1 r.0
    then (decode_chunk r.1 >>= λ out.
        check_size st r.1 out >>= λ decoded. value (add_size st decoded))
    else failed crc_mismatch

-- ChunkEOF
unfoldable pub read_eof : State → List ℕ → Read State
unfolding uvarint
read_eof st body =
    if ltb 10 (length body)
    then failed eof_length
    else if length body == 0
    then value st
    else elim (uvarint 0 0 body) [
      | none ↦ failed eof_varint
      | some (want_size, n) ↦
          if n == length body
          then if want_size == st.decompressed then value st else failed size_mismatch
          else failed eof_varint
    ]

-- The maximum size of a block, from the first byte.
unfoldable pub read_max_block : State → List ℕ → Read State
read_max_block st [] = panics
read_max_block st (x ∷ body) =
    let size = 2 ^ (x % 16 + 10) in
    if x / 2 ^ 6 == 0
    then if ltb max_block_size size
      then failed invalid_max_block
      else value (record st { max_block = size })
    else failed reserved_bits

-- ChunkStreamID. The slice has no capacity behind its end, so that `chunkData[:len(magicBody)]` of a
-- shorter one panics.
unfoldable pub read_stream_id : State → List ℕ → Read State
unfolding equal read_max_block
read_stream_id st body =
    if length body == 4
    then if ltb (length body) 5
      then panics
      else if equal (take 5 body) magic_body
      then read_max_block st (take 5 body)
      else failed id_mismatch
    else failed id_length

-- The switch on the type of the chunk. From 64 on the last of its cases go on, whatever they print.
unfoldable pub read_chunk : (crc : List ℕ → ℕ) → State → (kind : ℕ) (body : List ℕ) → Read State
unfolding read_uncompressed read_minlz_block read_minlz_comp_crc read_eof read_stream_id
    load_index_after_header
read_chunk crc st kind body =
    if kind == 0x00
    then value st
    else if kind == 0x01
    then read_uncompressed crc st body
    else if kind == 0x02
    then read_minlz_block crc st body
    else if kind == 0x03
    then read_minlz_comp_crc crc st body
    else if kind == 0x20
    then read_eof st body
    else if kind == 0xff
    then read_stream_id st body
    else if kind == 0x40
    then (load_index_after_header body >>= λ i. value st)
    else if leb kind 0x3f
    then failed unskippable
    else value st

-- The loop, with fuel: `st` is what it leaves where ReadStream returns nil.
unfoldable pub read_loop : (fuel : ℕ) → (crc : List ℕ → ℕ) → State → List ℕ → Read State
unfolding le24 read_chunk
read_loop zero crc st b = stuck
read_loop (suc n) crc st [] = value st
read_loop (suc n) crc st (kind ∷ x ∷ y ∷ z ∷ b) =
    if leb (le24 x y z) (length b)
    then (read_chunk crc st kind (take (le24 x y z) b) >>= λ st'.
        read_loop n crc st' (drop (le24 x y z) b))
    else failed truncated
read_loop (suc n) crc st b = failed truncated

unfoldable pub read_stream : (crc : List ℕ → ℕ) → List ℕ → Read State
unfolding read_loop
read_stream crc b = read_loop (suc (length b)) crc initial b
