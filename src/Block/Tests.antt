-- ===== src/Block/Tests.antt =====
-- Concrete runs of Decode, and its lemmas at concrete blocks.
use minlz.Prelude.{List, [], ◌∷◌, ◌++◌, ℕ, ◌-◌, some, replicate, length, drop, ◌≡◌, refl, arith}
use minlz.Reference.Reader.{ok}
use minlz.Reference.Header.{decode_block, decode_sized, read_size}
use minlz.Reference.Encoder.{encode_block}
use minlz.Reference.Returns.{Returns}
use minlz.Decode.Machine.{do_copy, do_copy2, do_literals, copy_from, forward_copy, splice}
use minlz.Decode.Checked.{checked_loop, checked_step, checked_parse, checked_execute}
use minlz.Decode.Checked.{checked_extra, checked_literal, checked_length}
use minlz.Decode.Fast.{min_lz_decode, fast_loop}
use minlz.Decode.Refine.Whole.{SameBlock, min_lz_decode-decode_body}
use minlz.Reference.Decoder.{decode_body, run, step, read_command, execute}
use minlz.Block.Header
use minlz.Block.Header.{
  err_corrupt, is_minlz, inspect_minlz, inspect_legacy, inspect_sized, decoded_len,
}
use minlz.Block.Decode.{S2, value, fail, decode, decode_inspected, decoded_size, append_decoded}
use minlz.Decode.Checked.{checked_copy3}
use minlz.Decode.Machine.{load16, load32}
use minlz.Decode.Left.{min_lz_left, fast_loop_left, checked_loop_left, checked_left}
use minlz.Block.Sized.{SameAnswer}
use minlz.Block.Whole.{decode_value, decode-decode_block}
use minlz.Block.Keeps.{
  Keeps, without_left, behind, decode-Keeps, decode-any_dst, append_decoded-decode,
}
use minlz.Block.RoundTrip.{decode-encode_block}

-- A decoder of the other format that takes blocks of plain bytes behind one tag.
abbrev plain : S2
plain = record { decoded_len = λ src. length src - 1; decode = λ dst src. some (drop 1 src) }

-- Two literals, and a repeat of the last of them, three times.
abbrev body : List ℕ
body = 8 ∷ 7 ∷ 9 ∷ 20 ∷ []

abbrev block : List ℕ
block = 5 ∷ body

legacy_sample : decode plain [] (3 ∷ 1 ∷ 2 ∷ 3 ∷ []) ≡ value (1 ∷ 2 ∷ 3 ∷ [])
unfolding decode is_minlz inspect_legacy decoded_len Header.uvarint decode_inspected
legacy_sample = refl

empty_sample : decode plain [] (0 ∷ 0 ∷ []) ≡ fail err_corrupt []
unfolding decode is_minlz inspect_minlz decoded_len Header.uvarint inspect_sized
empty_sample = refl

decode_sample : decode plain [] (0 ∷ block) ≡ value (7 ∷ 9 ∷ 9 ∷ 9 ∷ 9 ∷ [])
unfolding decode is_minlz inspect_minlz decoded_len Header.uvarint inspect_sized decode_inspected
    min_lz_decode fast_loop checked_loop checked_step checked_parse checked_execute checked_extra
    checked_literal checked_length do_copy do_copy2 do_literals copy_from forward_copy splice
decode_sample = refl

-- A size of ten bytes, of which DecodeBlock shifts the last one out.
abbrev long_size : List ℕ
long_size = 0 ∷ 133 ∷ (replicate 8 128 ++ (2 ∷ body))

long_size_sample : decode_block long_size ≡ ok (7 ∷ 9 ∷ 9 ∷ 9 ∷ 9 ∷ [])
unfolding decode_block read_size decode_sized decode_body run step read_command execute
long_size_sample = refl

long_size_refused : decode plain [] long_size ≡ fail err_corrupt []
unfolding decode is_minlz inspect_minlz decoded_len Header.uvarint
long_size_refused = refl

-- Two literals of five announced bytes: the old bytes behind them stay beside the error.
short_sample :
    decode plain (replicate 6 9) (0 ∷ 5 ∷ 8 ∷ 7 ∷ 8 ∷ [])
    ≡ fail err_corrupt (7 ∷ 8 ∷ 9 ∷ 9 ∷ 9 ∷ [])
unfolding decode is_minlz inspect_minlz decoded_len Header.uvarint inspect_sized decode_inspected
    min_lz_decode fast_loop checked_loop checked_step checked_parse checked_literal checked_execute
    do_literals copy_from splice min_lz_left fast_loop_left checked_loop_left
short_sample = refl

-- A fused copy behind one literal from before the start of the block: the literal is written.
fused_sample : decode plain [] (0 ∷ 9 ∷ 3 ∷ 0 ∷ 0 ∷ 7 ∷ []) ≡ fail err_corrupt (7 ∷ replicate 8 0)
unfolding decode is_minlz inspect_minlz decoded_len Header.uvarint inspect_sized decode_inspected
    min_lz_decode fast_loop checked_loop checked_step checked_parse checked_copy3 checked_execute
    checked_extra do_copy2 do_copy load32 load16 copy_from splice min_lz_left fast_loop_left
    checked_loop_left checked_left
fused_sample = refl

decode_value_example : decode_block (0 ∷ block) ≡ ok (7 ∷ 9 ∷ 9 ∷ 9 ∷ 9 ∷ [])
decode_value_example =
    decode_value plain [] block (7 ∷ 9 ∷ 9 ∷ 9 ∷ 9 ∷ []) (omega arith) decode_sample

read_sample : read_size 0 0 block ≡ ok (5, body)
unfolding read_size
read_sample = refl

decode-decode_block_example : SameAnswer (decode plain [] (0 ∷ block)) (decode_block (0 ∷ block))
decode-decode_block_example =
    decode-decode_block plain [] 5 body 5 body (omega arith) read_sample (omega arith) (omega arith)

decode-Keeps_example : Keeps (decoded_size (0 ∷ block)) (decode plain (1 ∷ []) (0 ∷ block))
decode-Keeps_example = decode-Keeps plain (1 ∷ []) block (omega arith)

decode-any_dst_example :
    without_left (decode plain (replicate 9 1) (0 ∷ block))
    ≡ without_left (decode plain [] (0 ∷ block))
decode-any_dst_example = decode-any_dst plain (replicate 9 1) [] block (omega arith)

append_decoded-decode_example :
    append_decoded plain (4 ∷ []) (1 ∷ 2 ∷ []) (0 ∷ block)
    ≡ behind (4 ∷ []) (decode plain [] (0 ∷ block))
append_decoded-decode_example =
    append_decoded-decode plain (4 ∷ []) (1 ∷ 2 ∷ []) block (omega arith)

abbrev repeated : List ℕ
repeated = 1 ∷ 2 ∷ 3 ∷ replicate 40 5

decode-encode_block_example :
    Returns (λ d. decode plain [] d ≡ value repeated) (encode_block repeated)
decode-encode_block_example = decode-encode_block plain [] repeated (omega arith) (omega arith)

min_lz_decode-decode_body_example :
    SameBlock (min_lz_decode (replicate 5 0) body) (decode_body 5 body)
min_lz_decode-decode_body_example =
    min_lz_decode-decode_body (replicate 5 0) body (omega arith) (omega arith) (omega arith)
