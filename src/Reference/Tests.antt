-- ===== src/Reference/Tests.antt =====
-- Concrete runs of the reference codec, and its theorems at concrete inputs.
use minlz.Prelude.{List, [], ◌∷◌, ◌++◌, ℕ, replicate, length, ◌≡◌, refl, arith}
use minlz.Reference.Reader.{ok}
use minlz.Reference.Header.{decode_block, read_size}
use minlz.Reference.Encoder.{encode_block, encode_within, encode_body, encode_loop, after_search}
use minlz.Reference.Encoder.{after_emitted, search_match, extend, index_match, emit_found}
use minlz.Reference.Encoder.{emit_pending, emit_match, emit_remainder, max_encoded_len}
use minlz.Reference.Encoder.{append_uvarint, encode_uncompressed}
use minlz.Reference.Emit.{
  emit_literals, emit_repeat, emit_copy1, emit_copy2, emit_copy3, emit_copy_lits2,
}
use minlz.Reference.Decoder.{decode_body, run, step}
use minlz.Reference.Reads.{Ensures}
use minlz.Reference.Run.{decode_body_total}
use minlz.Reference.Returns.{Returns}
use minlz.Reference.RoundTrip.Block.{decode_block-encode_block, IsBody, encode_body-IsBody}
use minlz.Reference.RoundTrip.Size.{read_size-append_uvarint}
use minlz.Reference.Total.{Continues, step-Continues}
use minlz.Reference.Decoder.{copy, initial}
use minlz.Reference.Codes.Commands.{
  Appends, AppendsRepeat, emit_copy3-Appends, emit_copy_lits2-AppendsRepeat,
}

abbrev sample : List ℕ
sample = 1 ∷ 2 ∷ 3 ∷ 4 ∷ 5 ∷ 6 ∷ (replicate 40 7 ++ (1 ∷ 2 ∷ 3 ∷ 4 ∷ 5 ∷ 6 ∷ 7 ∷ 7 ∷ 9 ∷ []))

abbrev sample_block : List ℕ
sample_block = 0 ∷ 55 ∷ 48 ∷ 1 ∷ 2 ∷ 3 ∷ 4 ∷ 5 ∷ 6 ∷ 7 ∷ 236 ∷ 9 ∷ 81 ∷ 11 ∷ 0 ∷ 9 ∷ []

encode_sample : encode_block sample ≡ ok sample_block
unfolding encode_block encode_within encode_body encode_loop after_search after_emitted search_match
    extend index_match emit_found emit_pending emit_match emit_remainder emit_literals emit_repeat
    emit_copy1 emit_copy2 emit_copy3 emit_copy_lits2 max_encoded_len append_uvarint
    encode_uncompressed
encode_sample = refl

decode_sample : decode_block sample_block ≡ ok sample
unfolding decode_block read_size decode_body run step
decode_sample = refl

decode_block-encode_block_example : Returns (λ d. decode_block d ≡ ok sample) (encode_block sample)
decode_block-encode_block_example = decode_block-encode_block sample (omega arith) (omega arith)

decode_body_total_example : Ensures (λ out. length out ≡ 3) (decode_body 3 (16 ∷ 1 ∷ 2 ∷ []))
decode_body_total_example = decode_body_total 3 (16 ∷ 1 ∷ 2 ∷ [])

encode_body-IsBody_example :
    Returns (IsBody (0 ∷ 55 ∷ []) sample) (encode_body (0 ∷ 55 ∷ []) sample)
encode_body-IsBody_example =
    encode_body-IsBody (0 ∷ 55 ∷ []) sample (omega arith) (omega arith) (omega arith)

read_size-append_uvarint_example :
    read_size 0 0 (append_uvarint 9 [] 70000 ++ (1 ∷ [])) ≡ ok (70000, 1 ∷ [])
read_size-append_uvarint_example = read_size-append_uvarint 70000 (1 ∷ []) (omega arith)

step-Continues_example :
    Ensures (Continues 9 initial (1 ∷ 2 ∷ 3 ∷ [])) (step 9 8 initial (1 ∷ 2 ∷ 3 ∷ []))
step-Continues_example =
    step-Continues 9 8 initial (1 ∷ 2 ∷ 3 ∷ [])
      (record { has_offset = omega arith; fits = omega arith })

emit_copy3-Appends_example :
    Returns (Appends 1 (copy 2 70000 500) (7 ∷ 8 ∷ []) []) (emit_copy3 [] 70000 500 (7 ∷ 8 ∷ []))
emit_copy3-Appends_example =
    emit_copy3-Appends 1 [] 70000 500 (7 ∷ 8 ∷ []) (omega arith) (omega arith) (omega arith)
      (omega arith) (omega arith)

emit_copy_lits2-AppendsRepeat_example :
    AppendsRepeat 1 2000 39
      (copy 2 2000 11)
      (7 ∷ 8 ∷ [])
      []
      (emit_copy_lits2 [] (7 ∷ 8 ∷ []) 2000 50)
emit_copy_lits2-AppendsRepeat_example =
    emit_copy_lits2-AppendsRepeat 1 [] (7 ∷ 8 ∷ []) 2000 50 (omega arith) (omega arith)
      (omega arith) (omega arith) (omega arith) (omega arith)
