-- ===== src/Level1/Found.antt =====
-- encodeBlockGo and encodeBlockGo64K behind the search: the match, and the matches right after it.
use minlz.Prelude.{ℕ, zero, suc, ◌+◌, ◌/◌, ◌^◌, ◌-◌, List, Option, none, some}
use minlz.Prelude.{ltb, leb, ◌==◌, ◌||◌, if◌then◌else◌, length}
use minlz.Bytes.{u32}
use minlz.Decode.Machine.{Outcome, next, stuck, ◌>>=◌}
use minlz.Reference.Encoder.{put, slice}
use minlz.Emit.Buffer.{on_tail}
use minlz.Emit.Write.{emit_literal, emit_copy}
use minlz.Level1.Words.{load64}
use minlz.Level1.Search.{Variant, Loop, Step, emit_rest, bail, again, s_limit, dst_limit}
use minlz.Level1.Search.{extend_back, extend_forward, is_match}

-- What is emitted for the match of `src[base:s]` at `repeat`; `none` is the bail out.
unfoldable pub emit_found :
    Variant → (src : List ℕ) → Loop → (base repeat s : ℕ) → Outcome (Option (List ℕ × ℕ))
unfolding on_tail emit_literal emit_copy
emit_found v src l base repeat s =
    let len = s - base in
    let lits = slice src l.next_emit base in
    if l.next_emit == base
    then (do out ← on_tail l.dst l.d (λ tail. emit_copy tail repeat len); next (some out))
    else if ltb v.fused_lits (base - l.next_emit) || ltb repeat 64
    then if ltb (dst_limit src) (l.d + (s - l.next_emit)) then next none else (do
      (dst, d) ← on_tail l.dst l.d (λ tail. emit_literal tail lits)
      out ← on_tail dst d (λ tail. emit_copy tail repeat len)
      next (some out))
    else (do out ← on_tail l.dst l.d (λ tail. v.emit_fused tail lits repeat len); next (some out))

-- A round of the loop over immediate matches, which `more` goes on with. `l.s` is the end of what
-- was emitted.
unfoldable pub immediate_round :
    (more : Loop → Outcome Step) → Variant → (src : List ℕ) → Loop → Outcome Step
unfolding load64 put is_match extend_forward on_tail emit_copy
immediate_round more v src l = if leb (s_limit src) l.s then next (emit_rest l) else (do
  x ← load64 src (l.s - 2)
  if ltb (dst_limit src) l.d then next (bail l.dst) else (do
    let curr_hash = v.hash (x / 2 ^ 16)
    let candidate = l.table curr_hash
    let table = put (put l.table (v.hash x) (v.entry (l.s - 2))) curr_hash (v.entry l.s)
    hit ← is_match v src l.s candidate (u32 (x / 2 ^ 16))
    if hit
        then (do
          s ← extend_forward (length src) src (l.s + 4) (candidate + 4)
          (dst, d) ← on_tail l.dst l.d (λ tail. emit_copy tail (l.s - candidate) (s - l.s))
          more (record {
            dst = dst;
            d = d;
            table = table;
            s = s;
            next_emit = s;
            repeat = l.s - candidate;
          }))
        else next (again (record l { table = table; s = l.s + 1 }))))

-- The loop over immediate matches, with fuel.
unfoldable pub immediate : (fuel : ℕ) → Variant → (src : List ℕ) → Loop → Outcome Step
unfolding immediate_round
immediate zero v src l = stuck
immediate (suc n) v src l = immediate_round (immediate n v src) v src l

-- From the break of the search on.
unfoldable pub after_found : Variant → (src : List ℕ) → (candidate : ℕ) → Loop → Outcome Step
unfolding extend_back extend_forward emit_found immediate
after_found v src candidate l = do
  (c, base) ← extend_back src l.next_emit candidate l.s
  s ← extend_forward (length src) src (base + 4) (c + 4)
  emitted ← emit_found v src l base (base - c) s
  elim emitted [
    | none ↦ next (bail l.dst)
    | some (dst, d) ↦
        immediate (length src) v src
          (record { dst = dst; d = d; table = l.table; s = s; next_emit = s; repeat = base - c })
  ]
