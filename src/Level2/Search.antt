-- ===== src/Level2/Search.antt =====
-- The inner loop of encodeBlockBetterGo and of encodeBlockBetterGo64K, which looks for a match.
use minlz.Prelude.{ℕ, ◌+◌, ◌-◌, ◌*◌, ◌/◌, ◌^◌, List, Bool, false, length, ltb, leb}
use minlz.Prelude.{◌==◌, ◌&&◌, if◌then◌else◌}
use minlz.Bytes.{u32}
use minlz.Decode.Machine.{Outcome, next, ◌>>=◌, load32}
use minlz.Reference.Encoder.{put, slice}
use minlz.Emit.Buffer.{on_tail}
use minlz.Emit.Write.{emit_literal, emit_repeat}
use minlz.Level1.Words.{load64}
use minlz.Level1.Search.{Loop, s_limit, dst_limit, extend_back}
use minlz.Level2.Extend.{extend_to_end}
use minlz.Level2.Tables.{Variant, index_between}

-- The variables of the loops: those of the fastest encoder, whose table is lTable, and sTable.
pub record Better : Type 0 where
  pub loop : Loop
  pub short : ℕ → ℕ

-- How a part of the function ends: with `goto emitRemainder`, with `return 0`, or with the next
-- round of the search.
pub data Step : Type 0 where
  emit_rest : Loop → Step
  bail : (dst : List ℕ) → Step
  again : Better → Step

-- How a round of the search ends: with a step, or with a match of `s` and a candidate; `next_s` is
-- where the search would go on.
pub data Search : Type 0 where
  settled : Step → Search
  found : (candidate next_s : ℕ) → Better → Search

-- The repeat of the four bytes at `s + 1`, with the literals before it.
unfoldable pub repeat_found : Variant → (src : List ℕ) → Better → Outcome Step
unfolding extend_back extend_to_end on_tail emit_literal emit_repeat index_between
repeat_found v src b = do
  let l = b.loop
  (_, base) ← extend_back src l.next_emit (l.s + 1 - l.repeat) (l.s + 1)
  if ltb (dst_limit src) (l.d + (base - l.next_emit)) then next (bail l.dst) else (do
    (dst, d) ← on_tail l.dst l.d (λ tail. emit_literal tail (slice src l.next_emit base))
    s ← extend_to_end (length src) src (l.s + 5) (l.s - l.repeat + 5)
    (dst, d) ← on_tail dst d (λ tail. emit_repeat tail (s - base))
    let l' = record l { dst = dst; d = d; s = s; next_emit = s }
    if leb (s_limit src) s then next (emit_rest l') else (do
      t ←
          index_between (length src) v src (base + 1) (s - 2)
            (record { long = l.table; short = b.short })
      next (again (record { loop = record l' { table = t.long }; short = t.short }))))

-- `repeat > 0 && cv&repeatMask == load64(src, s-repeat)&repeatMask`: the bytes 1 to 4 of the words.
unfoldable pub is_repeat : (src : List ℕ) → Loop → (cv : ℕ) → Outcome Bool
unfolding load64
is_repeat src l cv =
    if leb 1 l.repeat
    then (do
      w ← load64 src (l.s - l.repeat)
      next (u32 (cv / 2 ^ 8) * 2 ^ 8 == u32 (w / 2 ^ 8) * 2 ^ 8))
    else next false

-- `candidateL > minSrcPos && uint32(cv>>8) == load32(src, candidateL)`
unfoldable pub is_next : Variant → (src : List ℕ) → (s candidate word : ℕ) → Outcome Bool
unfolding load32
is_next v src s candidate word =
    if v.is_after s candidate then (do w ← load32 src candidate; next (word == w)) else next false

-- The long candidate at `s + 1`, or else the short one at `s`.
unfoldable pub try_next :
    Variant → (src : List ℕ) → Better → (cv next_s candidate : ℕ) → Outcome Search
unfolding is_next put
try_next v src b cv next_s candidate = do
  let l = b.loop
  let hash = v.hash_long (cv / 2 ^ 8)
  let long = put l.table hash (v.entry (l.s + 1))
  hit ← is_next v src l.s (l.table hash) (u32 (cv / 2 ^ 8))
  next (
      if hit
      then found (l.table hash) next_s (record b { loop = record l { table = long; s = l.s + 1 } })
      else found candidate next_s (record b { loop = record l { table = long } }))

-- The position `s` in both tables.
abbrev pub indexed : Variant → Better → (cv : ℕ) → Better
indexed v b cv = record {
  loop = record b.loop { table = put b.loop.table (v.hash_long cv) (v.entry b.loop.s) };
  short = put b.short (v.hash_short cv) (v.entry b.loop.s);
}

-- A round of the search.
unfoldable pub search_step : Variant → (src : List ℕ) → Better → Outcome Search
unfolding load64 put is_repeat repeat_found try_next
search_step v src b =
    let l = b.loop in
    let next_s = l.s + (l.s - l.next_emit) / 2 ^ 7 + 1 in
    if ltb (s_limit src) next_s then next (settled (emit_rest l)) else (do
      cv ← load64 src l.s
      let candidate_l = l.table (v.hash_long cv)
      let candidate_s = b.short (v.hash_short cv)
      let b' = indexed v b cv
      val_long ← load64 src candidate_l
      val_short ← load64 src candidate_s
      if v.is_after l.s candidate_l && cv == val_long
          then next (found candidate_l next_s b')
          else (do
            hit ← is_repeat src l cv
            if hit
                then (do step ← repeat_found v src b'; next (settled step))
                else if v.is_from l.s candidate_l && u32 cv == u32 val_long
                then next (found candidate_l next_s b')
                else if v.is_from l.s candidate_s && u32 cv == u32 val_short
                then try_next v src b' cv next_s candidate_s
                else next (settled (again (record b' { loop = record b'.loop { s = next_s } })))))
