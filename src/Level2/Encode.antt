-- ===== src/Level2/Encode.antt =====
-- encodeBlockBetterGo and encodeBlockBetterGo64K as a whole, and encodeBlockBetter.
use minlz.Prelude.{ℕ, zero, suc, List, ltb, leb, if◌then◌else◌, length, ◌*◌, ◌^◌}
use minlz.Decode.Machine.{Outcome, next, stuck, ◌>>=◌}
use minlz.Level1.Encode.{emit_remainder}
use minlz.Level2.Tables.{Variant, wide, narrow}
use minlz.Level2.Search.{Better, Step, emit_rest, bail, again, Search, settled, found, search_step}
use minlz.Level2.Found.{after_found}

-- What follows a round of the search.
unfoldable pub after_search : Variant → (src : List ℕ) → Search → Outcome Step
unfolding after_found
after_search v src (settled step) = next step
after_search v src (found candidate next_s b) = after_found v src candidate next_s b

-- What follows a step; `more` is the next round.
unfoldable pub after_step :
    (more : Better → Outcome (List ℕ × ℕ)) → (src : List ℕ) → Step → Outcome (List ℕ × ℕ)
unfolding emit_remainder
after_step more src (emit_rest l) = emit_remainder src l
after_step more src (bail dst) = next (dst, 0)
after_step more src (again b) = more b

-- The two outer loops, with fuel: a round searches once, and emits what was found.
unfoldable pub encode_loop : (fuel : ℕ) → Variant → (src : List ℕ) → Better → Outcome (List ℕ × ℕ)
unfolding search_step after_search after_step
encode_loop zero v src b = stuck
encode_loop (suc n) v src b = do
  hit ← search_step v src b
  step ← after_search v src hit
  after_step (encode_loop n v src) src step

unfoldable pub encode_variant : Variant → (dst src : List ℕ) → Outcome (List ℕ × ℕ)
unfolding encode_loop
encode_variant v dst src = encode_loop (length src) v src (record {
  loop = record { dst = dst; d = 0; table = λ _. 0; s = 1; next_emit = 0; repeat = 1 };
  short = λ _. 0;
})

-- encodeBlockBetterGo64K
unfoldable pub encode_block_better_go_64k : (dst src : List ℕ) → Outcome (List ℕ × ℕ)
unfolding encode_variant
encode_block_better_go_64k dst src = encode_variant narrow dst src

-- encodeBlockBetterGo, which encodeBlockBetter of asm_none.go calls and nothing else.
unfoldable pub encode_block_better : (dst src : List ℕ) → Outcome (List ℕ × ℕ)
unfolding encode_variant encode_block_better_go_64k
encode_block_better dst src =
    if ltb (length src) 16
    then next (dst, 0)
    else if leb (length src) (64 * 2 ^ 10)
    then encode_block_better_go_64k dst src
    else encode_variant wide dst src
