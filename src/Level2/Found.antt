-- ===== src/Level2/Found.antt =====
-- encodeBlockBetterGo and encodeBlockBetterGo64K behind the search.
use minlz.Prelude.{ℕ, ◌+◌, ◌-◌, List, length, ltb, leb, if◌then◌else◌}
use minlz.Decode.Machine.{Outcome, next, ◌>>=◌}
use minlz.Reference.Encoder.{slice}
use minlz.Emit.Buffer.{on_tail}
use minlz.Emit.Write.{emit_literal, emit_copy}
use minlz.Level1.Search.{Loop, s_limit, dst_limit, extend_back}
use minlz.Level2.Extend.{extend_to_end}
use minlz.Level2.Tables.{Variant, index_match}
use minlz.Level2.Search.{Better, Step, emit_rest, bail, again}

-- What is emitted for the match of `src[base:s]` at `offset`.
unfoldable pub emit_found :
    Variant → (src : List ℕ) → Loop → (base offset s : ℕ) → Outcome (List ℕ × ℕ)
unfolding on_tail emit_literal emit_copy
emit_found v src l base offset s =
    let lits = slice src l.next_emit base in
    if ltb 0 (length lits)
    then if v.is_fused (length lits) offset
      then on_tail l.dst l.d (λ tail. v.emit_fused tail lits offset (s - base))
      else (do
        (dst, d) ← on_tail l.dst l.d (λ tail. emit_literal tail lits)
        on_tail dst d (λ tail. emit_copy tail offset (s - base)))
    else on_tail l.dst l.d (λ tail. emit_copy tail offset (s - base))

-- After the emission: `l` has `s` and `next_emit` at the end of the match.
unfoldable pub after_emitted :
    Variant → (src : List ℕ) → (base : ℕ) → Loop → (short : ℕ → ℕ) → Outcome Step
unfolding index_match
after_emitted v src base l short =
    if leb (s_limit src) l.s
    then next (emit_rest l)
    else if ltb (dst_limit src) l.d
    then next (bail l.dst)
    else (do
      t ← index_match v src base l.s (record { long = l.table; short = short })
      next (again (record { loop = record l { table = t.long }; short = t.short })))

-- From the break of the search on.
unfoldable pub after_found :
    Variant → (src : List ℕ) → (candidate next_s : ℕ) → Better → Outcome Step
unfolding extend_back extend_to_end emit_found after_emitted
after_found v src candidate next_s b = do
  let l = b.loop
  (c, base) ← extend_back src l.next_emit candidate l.s
  if ltb (dst_limit src) (l.d + (base - l.next_emit)) then next (bail l.dst) else (do
    s ← extend_to_end (length src) src (base + 4) (c + 4)
    let skipped = record l { s = next_s + 1 }
    if v.is_poor (base - c) (s - base) l.repeat
        then next (
            if leb (s_limit src) (next_s + 1)
            then emit_rest skipped
            else again (record b { loop = skipped }))
        else (do
          (dst, d) ← emit_found v src l base (base - c) s
          after_emitted v src base
              (record {
                dst = dst;
                d = d;
                table = l.table;
                s = s;
                next_emit = s;
                repeat = base - c;
              })
              b.short))
