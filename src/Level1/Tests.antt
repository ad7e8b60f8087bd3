-- ===== src/Level1/Tests.antt =====
-- Concrete runs of the fastest encoder, and its lemmas at a concrete source.
use minlz.Prelude.{ℕ, List, [], ◌∷◌, ◌++◌, replicate, ◌≡◌, refl, arith}
use minlz.Decode.Machine.{next, load32, splice}
use minlz.Reference.Encoder.{put}
use minlz.Emit.Buffer.{on_tail, copy_into, store16}
use minlz.Emit.Write.{emit_literal, emit_copy, emit_short_offset, encode_copy3}
use minlz.Level1.Ends.{Ends}
use minlz.Level1.Words.{load64, hash5, trailing_zeros}
use minlz.Level1.Extend.{Forward, extend_forward-Forward}
use minlz.Level1.Search.{wide, extend_back, extend_forward, is_match}
use minlz.Level1.Search.{try_candidates, search_step}
use minlz.Level1.Found.{emit_found, immediate_round, immediate, after_found}
use minlz.Level1.Encode.{
  emit_remainder, after_search, after_step, encode_loop, encode_variant, encode_block_go_64k,
  encode_block_go, encode_block,
}
use minlz.Level1.RoundTrip.{IsBody, encode_block-IsBody}
use minlz.Level1.Overflow.{try_candidates-wraps}
use minlz.Prelude.{◌-◌, ◌/◌, ◌^◌, ◌==◌, if◌then◌else◌, false}
use minlz.Level1.Words.{hash6}
use minlz.Level1.Search.{Loop, found}

abbrev pub period : List ℕ
period = 97 ∷ 98 ∷ 99 ∷ 100 ∷ 101 ∷ 102 ∷ 103 ∷ 104 ∷ 105 ∷ 106 ∷ 107 ∷ []

abbrev pub ending : List ℕ
ending = 3 ∷ 4 ∷ 5 ∷ 6 ∷ 7 ∷ 8 ∷ 9 ∷ 10 ∷ 11 ∷ 12 ∷ 13 ∷ 14 ∷ 15 ∷ 16 ∷ []

-- A repetition in the middle.
abbrev pub text : List ℕ
text = 1 ∷ 2 ∷ (period ++ (period ++ ending))

-- A repetition up to the end.
abbrev periodic : List ℕ
periodic = 1 ∷ 2 ∷ (period ++ (period ++ (period ++ (period ++ (7 ∷ 8 ∷ 9 ∷ [])))))

abbrev body : List ℕ
body = 96 ∷ 1 ∷ 2 ∷ (period ++ (157 ∷ 2 ∷ 104 ∷ ending))

text_sample : encode_block (replicate 64 0) text ≡ next (body ++ replicate 33 0, 31)
unfolding encode_block encode_block_go encode_block_go_64k encode_variant encode_loop search_step
    after_search after_step after_found emit_remainder immediate immediate_round emit_found
    try_candidates is_match extend_back extend_forward load64 load32 hash5 trailing_zeros put
    on_tail copy_into splice store16 emit_literal emit_copy emit_short_offset
text_sample = refl

-- Thirteen literals and a copy would do, but what the copy stands for is counted as well.
periodic_sample : encode_block (replicate 64 0) periodic ≡ next (replicate 64 0, 0)
unfolding encode_block encode_block_go encode_block_go_64k encode_variant encode_loop search_step
    after_search after_step after_found immediate immediate_round emit_found try_candidates is_match
    extend_back extend_forward load64 load32 hash5 trailing_zeros put
periodic_sample = refl

encode_block-IsBody_example :
    Ends (IsBody text (replicate 64 0)) (encode_block (replicate 64 0) text)
encode_block-IsBody_example =
    encode_block-IsBody (replicate 64 0) text (omega arith) (omega arith) (omega arith)

extend_forward-Forward_example : Ends (Forward text 17 6) (extend_forward 38 text 17 6)
extend_forward-Forward_example =
    extend_forward-Forward 38 text 17 6 (omega arith) (omega arith) (omega arith) (omega arith)
      (omega arith)

-- More than 2 MiB of equal bytes behind another one, and the same again.
abbrev nine : (rest : List ℕ) → List ℕ
nine rest = 9 ∷ 7 ∷ 7 ∷ 7 ∷ 7 ∷ rest

abbrev far_apart : List ℕ
far_apart = nine (replicate 2162683 7 ++ nine (replicate 40 7))

-- The word behind the second 9, which is at `s`.
abbrev far_word : ℕ
far_word = 0x0707070707070709

abbrev far_loop : Loop
far_loop = record {
  dst = [];
  d = 0;
  table = λ h. if h == wide.hash far_word then 0 else 1;
  s = 2162688;
  next_emit = 2162688;
  repeat = 1;
}

far_first :
    is_match wide far_apart 2162688 (far_loop.table (wide.hash far_word)) 0x07070709 ≡ next false
unfolding is_match hash6
far_first = refl

far_same : far_loop.table (wide.hash (far_word / 2 ^ 8)) ≡ 1
unfolding hash6
far_same = refl

load32-nine : (rest : List ℕ) → load32 (nine rest) 1 ≡ next 0x07070707
unfolding load32
load32-nine rest = refl

try_candidates-wraps_example :
    (l' : Loop) × (try_candidates wide far_apart far_loop far_word 2162692 far_loop.table
      ≡ next (found 1 l'))
    × (l'.s ≡ 2162689)
    × ((dst : List ℕ) (len : ℕ) → emit_copy dst (l'.s - 1) len ≡ encode_copy3 dst 65536 len 0)
try_candidates-wraps_example =
    try_candidates-wraps far_apart far_loop far_word 2162692 far_loop.table 1 far_first far_same
      (load32-nine (replicate 2162683 7 ++ nine (replicate 40 7))) refl
