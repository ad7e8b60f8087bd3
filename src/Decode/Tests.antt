-- ===== src/Decode/Tests.antt =====
-- Concrete runs of minLZDecodeGo, and its lemmas at concrete inputs.
use minlz.Prelude.{List, [], ◌∷◌, ◌++◌, ℕ, replicate, ◌≡◌, refl, arith}
use minlz.Decode.Machine.{next, copy_from, forward_copy}
use minlz.Decode.Machine.{splice, store32, load16, load32, do_copy, do_copy2, do_literals}
use minlz.Decode.Checked.{
  checked_length, checked_loop, checked_step, checked_parse, checked_execute,
}
use minlz.Decode.Checked.{
  checked_extra, checked_literal, checked_copy1, checked_copy2, checked_copy3,
}
use minlz.Decode.Fast.{min_lz_decode, fast_loop, fast_step, fast_parse, fast_execute, fast_extra}
use minlz.Decode.Fast.{fast_literal, fast_copy1, fast_copy2, fast_copy3, fast_length}
use minlz.Decode.Refine.Steps.{SameState, do_copy2-put_copy}
use minlz.Reference.Decoder.{put_copy}
use minlz.Decode.Machine.{Regs}

abbrev body : List ℕ
body = 48 ∷ 1 ∷ 2 ∷ 3 ∷ 4 ∷ 5 ∷ 6 ∷ 7 ∷ 236 ∷ 9 ∷ 81 ∷ 11 ∷ 0 ∷ 9 ∷ []

-- Seven literals, a repeat and a copy1, of which the first loop does the literals, and a literal.
min_lz_decode_sample :
    min_lz_decode (replicate 55 0) body
    ≡ next (1 ∷ 2 ∷ 3 ∷ 4 ∷ 5 ∷ 6 ∷ (replicate 40 7 ++ (1 ∷ 2 ∷ 3 ∷ 4 ∷ 5 ∷ 6 ∷ 7 ∷ 7 ∷ 9 ∷ [])))
unfolding min_lz_decode fast_loop fast_step fast_parse fast_execute fast_extra fast_literal
    fast_copy1 fast_copy2 fast_copy3 fast_length checked_loop checked_step checked_parse
    checked_execute checked_extra checked_literal checked_copy1 checked_copy2 checked_copy3
    checked_length do_copy do_copy2 do_literals copy_from forward_copy splice store32 load16 load32
min_lz_decode_sample = refl

abbrev two_bytes : List ℕ
two_bytes = 1 ∷ 2 ∷ 0 ∷ 0 ∷ 0 ∷ 0 ∷ 0 ∷ []

abbrev two_done : Regs
two_done = record { dst = two_bytes; d = 2; s = 0; offset = 2 }

do_copy2-put_copy_example :
    SameState 7 0 (do_copy2 two_done 5) (put_copy 7 2 5 (record { out = 1 ∷ 2 ∷ []; offset = 9 }))
do_copy2-put_copy_example =
    do_copy2-put_copy 7 5 two_done (record { out = 1 ∷ 2 ∷ []; offset = 9 }) (omega arith) refl
      (omega arith) (omega arith) refl
