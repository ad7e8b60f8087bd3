-- ===== src/Level1/Encode.antt =====
-- encodeBlockGo and encodeBlockGo64K as a whole, and encodeBlock.
use minlz.Prelude.{ℕ, zero, suc, ◌+◌, ◌-◌, List, drop, ltb, leb, if◌then◌else◌, length}
use minlz.Decode.Machine.{Outcome, next, stuck, ◌>>=◌}
use minlz.Emit.Buffer.{on_tail}
use minlz.Emit.Write.{emit_literal}
use minlz.Level1.Search.{
  Variant, wide, narrow, Loop, Step, emit_rest, bail, again, Search, settled, found, dst_limit,
  search_step,
}
use minlz.Level1.Found.{after_found}

-- From the label emitRemainder on.
unfoldable pub emit_remainder : (src : List ℕ) → Loop → Outcome (List ℕ × ℕ)
unfolding on_tail emit_literal
emit_remainder src l =
    if ltb l.next_emit (length src)
    then if ltb (dst_limit src) (l.d + length src - l.next_emit)
      then next (l.dst, 0)
      else on_tail l.dst l.d (λ tail. emit_literal tail (drop l.next_emit src))
    else next (l.dst, l.d)

-- What follows a round of the search.
unfoldable pub after_search : Variant → (src : List ℕ) → Search → Outcome Step
unfolding after_found
after_search v src (settled step) = next step
after_search v src (found candidate l) = after_found v src candidate l

-- What follows a step; `more` is the next round.
unfoldable pub after_step :
    (more : Loop → Outcome (List ℕ × ℕ)) → (src : List ℕ) → Step → Outcome (List ℕ × ℕ)
unfolding emit_remainder
after_step more src (emit_rest l) = emit_remainder src l
after_step more src (bail dst) = next (dst, 0)
after_step more src (again l) = more l

-- The two outer loops, with fuel: a round searches once, and emits what was found.
unfoldable pub encode_loop : (fuel : ℕ) → Variant → (src : List ℕ) → Loop → Outcome (List ℕ × ℕ)
unfolding search_step after_search after_step
encode_loop zero v src l = stuck
encode_loop (suc n) v src l = do
  hit ← search_step v src l
  step ← after_search v src hit
  after_step (encode_loop n v src) src step

unfoldable pub encode_variant : Variant → (dst src : List ℕ) → Outcome (List ℕ × ℕ)
unfolding encode_loop
encode_variant v dst src =
    encode_loop (length src) v src
      (record { dst = dst; d = 0; table = λ _. 0; s = 1; next_emit = 0; repeat = 1 })

-- encodeBlockGo64K
unfoldable pub encode_block_go_64k : (dst src : List ℕ) → Outcome (List ℕ × ℕ)
unfolding encode_variant
encode_block_go_64k dst src = encode_variant narrow dst src

unfoldable pub encode_block_go : (dst src : List ℕ) → Outcome (List ℕ × ℕ)
unfolding encode_variant encode_block_go_64k
encode_block_go dst src =
    if leb (length src) 65536 then encode_block_go_64k dst src else encode_variant wide dst src

-- encodeBlock of asm_none.go
unfoldable pub encode_block : (dst src : List ℕ) → Outcome (List ℕ × ℕ)
unfolding encode_block_go
encode_block dst src = if ltb (length src) 16 then next (dst, 0) else encode_block_go dst src
