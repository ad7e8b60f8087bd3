-- ===== src/Reference/Header.antt =====
-- DecodeBlock (internal/reference/decoder.go), from its first line on: the indicator, the size,
-- and the operations.
use minlz.Prelude.{ℕ, ◌+◌, ◌*◌, ◌/◌, ◌%◌, ◌^◌, bit_or, List, [], ◌∷◌, Bool, ◌&&◌, ◌||◌}
use minlz.Prelude.{length, ltb, leb, ◌==◌, if◌then◌else◌}
use minlz.Reference.Reader.{Result, ok, err, ◌>>=◌}
use minlz.Reference.Reader.{no_input, not_minlz, no_length, invalid_size, size_too_small}
use minlz.Reference.Decoder.{max_block_size, decode_body}

-- An `int` is kept as its pattern of 64 bits.
abbrev pub is_negative : ℕ → Bool
is_negative n = leb (2 ^ 63) n

-- `wantSize > maxBlockSize` on a signed `wantSize`.
abbrev pub too_large : ℕ → Bool
too_large n = ltb max_block_size n && ltb n (2 ^ 63)

-- The loop that reads the size, at the shift `i`.
unfoldable pub read_size : (i size : ℕ) → List ℕ → Result (ℕ × List ℕ)
read_size i size [] = if i == 70 then err invalid_size else err no_length
read_size i size (v ∷ src) =
    let size' = bit_or size (v % 2 ^ 7 * 2 ^ i % 2 ^ 64) in
    if i == 70
    then err invalid_size
    else if too_large size'
    then err invalid_size
    else if v / 2 ^ 7 % 2 == 0
    then ok (size', src)
    else read_size (i + 7) size' src

-- What follows the size.
unfoldable pub decode_sized : (size : ℕ) → List ℕ → Result (List ℕ)
decode_sized size src =
    if is_negative size || too_large size
    then err invalid_size
    else if size == 0
    then ok src
    else if ltb size (length src)
    then err size_too_small
    else decode_body size src

unfoldable pub decode_block : List ℕ → Result (List ℕ)
unfolding decode_sized
decode_block [] = err no_input
decode_block (v ∷ []) = if v == 0 then ok [] else err not_minlz
decode_block (v ∷ b ∷ src) =
    if v == 0
    then (do (size, body) ← read_size 0 0 (b ∷ src); decode_sized size body)
    else err not_minlz
