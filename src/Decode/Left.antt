-- ===== src/Decode/Left.antt =====
-- What the destination of minLZDecodeGo holds when it returns decodeErrCodeCorrupt: a round that
-- fails has written the literals that are fused with a copy, or nothing.
use minlz.Prelude.{ℕ, zero, suc, ◌+◌, List, length, ltb, if◌then◌else◌}
use minlz.Decode.Machine.{Outcome, next, Regs, copy}
use minlz.Decode.Checked.{checked_parse, checked_extra, checked_step}
use minlz.Decode.Fast.{fast_parse, fast_extra, fast_step}

-- The destination behind a part of a round that had `before` in front of it.
abbrev pub written : (before : List ℕ) → Outcome Regs → List ℕ
written before (next r) = r.dst
written before _ = before

-- A round of the first loop that returns the error.
unfoldable pub fast_left : (src : List ℕ) → Regs → List ℕ
unfolding fast_parse fast_extra
fast_left src r = elim (fast_parse src r.s r.offset) [
  | next (copy extra offset len s) ↦
      written r.dst (fast_extra src (record r { s = s; offset = offset }) extra)
  | _ ↦ r.dst
]

-- A round of the second loop that returns the error.
unfoldable pub checked_left : (src : List ℕ) → Regs → List ℕ
unfolding checked_parse checked_extra
checked_left src r = elim (checked_parse src r.s r.offset) [
  | next (copy extra offset len s) ↦
      written r.dst (checked_extra src (record r { s = s; offset = offset }) extra)
  | _ ↦ r.dst
]

-- The first loop, and behind it `k`.
unfoldable pub fast_loop_left : (fuel : ℕ) (src : List ℕ) → (k : Regs → List ℕ) → Regs → List ℕ
unfolding fast_step fast_left
fast_loop_left zero src k r = k r
fast_loop_left (suc fuel) src k r =
    let rest : List ℕ = elim (fast_step src r) [
      | next r' ↦ fast_loop_left fuel src k r'
      | _ ↦ fast_left src r
    ] in
    if ltb (r.s + 11) (length src) then rest else k r

-- The second loop, and behind it the comparison of `d` with the length of the destination.
unfoldable pub checked_loop_left : (fuel : ℕ) (src : List ℕ) → Regs → List ℕ
unfolding checked_step checked_left
checked_loop_left zero src r = r.dst
checked_loop_left (suc fuel) src r =
    let rest : List ℕ = elim (checked_step src r) [
      | next r' ↦ checked_loop_left fuel src r'
      | _ ↦ checked_left src r
    ] in
    if ltb r.s (length src) then rest else r.dst

-- minLZDecodeGo, when it returns the error.
unfoldable pub min_lz_left : (dst src : List ℕ) → List ℕ
unfolding fast_loop_left checked_loop_left
min_lz_left dst src =
    fast_loop_left (length src) src (checked_loop_left (length src) src)
      (record { dst = dst; d = 0; s = 0; offset = 1 })
