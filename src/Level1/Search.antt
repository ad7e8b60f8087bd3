-- ===== src/Level1/Search.antt =====
-- The inner loop of encodeBlockGo and of encodeBlockGo64K, which looks for a match.
use minlz.Prelude.{ℕ, zero, suc, ◌+◌, ◌*◌, ◌/◌, ◌^◌, ◌-◌, bit_xor, List, Bool, true, false}
use minlz.Prelude.{length, ltb, leb, ◌==◌, if◌then◌else◌}
use minlz.Bytes.{u16, u32}
use minlz.Decode.Machine.{Outcome, next, stuck, ◌>>=◌, load8, load32}
use minlz.Reference.Encoder.{Table, put, slice}
use minlz.Emit.Buffer.{on_tail}
use minlz.Emit.Write.{emit_literal, emit_repeat, emit_copy_lits2, emit_copy_lits3}
use minlz.Level1.Words.{load64, hash5, hash6, trailing_zeros64}

-- What differs between the two functions: the hash, skipLog, the type of the table's entries, the
-- test `candidate >= minSrcPos`, and the literals that fuse with a copy, and how.
pub record Variant : Type 0 where
  pub hash : ℕ → ℕ
  pub skip_log : ℕ
  pub entry : ℕ → ℕ
  pub in_reach : (s candidate : ℕ) → Bool
  pub fused_lits : ℕ
  pub emit_fused : (dst lits : List ℕ) (offset len : ℕ) → Outcome (List ℕ × ℕ)

abbrev pub max_copy3_offset : ℕ
max_copy3_offset = 2 * 2 ^ 20 + 65535

-- `repeat <= maxCopy2Offset` chooses between the two fused copies.
abbrev pub emit_wide_fused : (dst lits : List ℕ) (offset len : ℕ) → Outcome (List ℕ × ℕ)
emit_wide_fused dst lits offset len =
    if leb offset (64 + 65535)
    then emit_copy_lits2 dst lits offset len
    else emit_copy_lits3 dst lits offset len

-- encodeBlockGo
abbrev pub wide : Variant
wide = record {
  hash = λ u. hash6 u 15;
  skip_log = 6;
  entry = u32;
  in_reach = λ s candidate. leb s (candidate + max_copy3_offset);
  fused_lits = 3;
  emit_fused = emit_wide_fused;
}

-- encodeBlockGo64K
abbrev pub narrow : Variant
narrow = record {
  hash = λ u. hash5 u 13;
  skip_log = 5;
  entry = u16;
  in_reach = λ s candidate. true;
  fused_lits = 4;
  emit_fused = emit_copy_lits2;
}

-- The variables of the loops. `cv` is load64(src, s) whenever a round begins, and is loaded there.
pub record Loop : Type 0 where
  pub dst : List ℕ
  pub d : ℕ
  pub table : Table
  pub s : ℕ
  pub next_emit : ℕ
  pub repeat : ℕ

-- How a part of the function ends: with `goto emitRemainder`, with `return 0`, or with the next
-- round of the search.
pub data Step : Type 0 where
  emit_rest : Loop → Step
  bail : (dst : List ℕ) → Step
  again : Loop → Step

-- How a round of the search ends: with a step, or with a match of `s` and a candidate.
pub data Search : Type 0 where
  settled : Step → Search
  found : (candidate : ℕ) → Loop → Search

abbrev pub s_limit : List ℕ → ℕ
s_limit src = length src - 8

abbrev pub dst_limit : List ℕ → ℕ
dst_limit src = length src - length src / 2 ^ 5 - 6

-- The loop that extends a match backwards while `base > next_emit` and the candidate `i` is
-- positive: it gives the candidate and the base.
unfoldable pub extend_back : (src : List ℕ) (next_emit i base : ℕ) → Outcome (ℕ × ℕ)
extend_back src next_emit zero base = next (0, base)
extend_back src next_emit (suc i) base = if leb base next_emit then next (suc i, base) else (do
  a ← load8 src i
  b ← load8 src (base - 1)
  let rest = extend_back src next_emit i (base - 1)
  if a == b then rest else next (suc i, base))

-- The loop that extends a match forward by words, with fuel: it gives `s`.
unfoldable pub extend_forward : (fuel : ℕ) (src : List ℕ) (s candidate : ℕ) → Outcome ℕ
unfolding load64
extend_forward zero src s candidate = stuck
extend_forward (suc n) src s candidate = if ltb (s_limit src) s then next s else (do
  a ← load64 src s
  b ← load64 src candidate
  let rest = extend_forward n src (s + 8) (candidate + 8)
  let diff = bit_xor a b
  if diff == 0 then rest else next (s + trailing_zeros64 diff / 2 ^ 3))

-- The case of a repeat: the four bytes at `s + 1` are those at `repeat` before. The invariant keeps
-- `repeat` at most `s`.
unfoldable pub repeat_found : (src : List ℕ) → Loop → Outcome Step
unfolding extend_back extend_forward on_tail emit_literal emit_repeat
repeat_found src l = do
  (_, base) ← extend_back src l.next_emit (l.s + 1 - l.repeat) (l.s + 1)
  if ltb (dst_limit src) (l.d + (base - l.next_emit)) then next (bail l.dst) else (do
    (dst, d) ← on_tail l.dst l.d (λ tail. emit_literal tail (slice src l.next_emit base))
    s ← extend_forward (length src) src (l.s + 5) (l.s - l.repeat + 5)
    (dst, d) ← on_tail dst d (λ tail. emit_repeat tail (s - base))
    let l' = record l { dst = dst; d = d; s = s; next_emit = s }
    next (if leb (s_limit src) s then emit_rest l' else again l'))

-- `candidate >= minSrcPos && word == load32(src, candidate)`, where minSrcPos is
-- `s - maxCopy3Offset` and may be negative.
unfoldable pub is_match : Variant → (src : List ℕ) (s candidate word : ℕ) → Outcome Bool
unfolding load32
is_match v src s candidate word =
    if v.in_reach s candidate then (do w ← load32 src candidate; next (word == w)) else next false

-- The three candidates of a round, of which the first that matches is taken: that of `s`, that of
-- `s + 1` and that of `s + 2`, which is read after `table` has got the first two positions.
unfoldable pub try_candidates :
    Variant → (src : List ℕ) → Loop → (cv next_s : ℕ) (table : Table) → Outcome Search
unfolding is_match put
try_candidates v src l cv next_s table = do
  let hash2 = v.hash (cv / 2 ^ 16)
  let after = put table hash2 (v.entry (l.s + 2))
  let candidate = l.table (v.hash cv)
  let candidate2 = l.table (v.hash (cv / 2 ^ 8))
  let candidate3 = table hash2
  first ← is_match v src l.s candidate (u32 cv)
  if first then next (found candidate (record l { table = table })) else (do
    second ← is_match v src l.s candidate2 (u32 (cv / 2 ^ 8))
    if second then next (found candidate2 (record l { table = after; s = l.s + 1 })) else (do
      third ← is_match v src l.s candidate3 (u32 (cv / 2 ^ 16))
      next (
          if third
          then found candidate3 (record l { table = after; s = l.s + 2 })
          else settled (again (record l { table = after; s = next_s })))))

-- A round of the search.
unfoldable pub search_step : Variant → (src : List ℕ) → Loop → Outcome Search
unfolding load64 load32 put repeat_found try_candidates
search_step v src l =
    let next_s = l.s + (l.s - l.next_emit) / 2 ^ v.skip_log + 4 in
    if ltb (s_limit src) next_s then next (settled (emit_rest l)) else (do
      cv ← load64 src l.s
      let table =
          put (put l.table (v.hash cv) (v.entry l.s)) (v.hash (cv / 2 ^ 8)) (v.entry (l.s + 1))
      w ← load32 src (l.s + 1 - l.repeat)
      if u32 (cv / 2 ^ 8) == w
          then (do step ← repeat_found src (record l { table = table }); next (settled step))
          else try_candidates v src l cv next_s table)
