-- ===== src/Decode/Checked.antt =====
-- The second loop of minLZDecodeGo, "Remaining with extra checks": every read of `src` is guarded.
use minlz.Prelude.{ℕ, zero, suc, ◌+◌, ◌/◌, ◌%◌, ◌^◌, List, length, ltb, leb, ◌==◌, if◌then◌else◌}
use minlz.Prelude.{◌||◌}
use minlz.Bytes.{le16, le24}
use minlz.Decode.Machine.{Outcome, next, corrupt, stuck, ◌>>=◌, Regs, load8, load16, load32}
use minlz.Decode.Machine.{copy_from, do_copy2, do_literals, Parsed, literals, copy}

-- `s += n; if s > len(src) { return decodeErrCodeCorrupt }` in front of `k`.
abbrev pub guarded {ℓ} : {A : Type ℓ} → (src : List ℕ) (s : ℕ) → Outcome A → Outcome A
guarded src s k = if ltb (length src) s then corrupt else k

-- A length whose code reaches `from` goes on in 1, 2 or 3 more bytes at `s`, added to `base`.
-- The result is the length and the position behind it.
unfoldable pub checked_length : (src : List ℕ) (s code from base : ℕ) → Outcome (ℕ × ℕ)
unfolding le16 le24
checked_length src s code from base =
    if code == from
    then guarded src (s + 1) (do a ← load8 src s; next (a + base, s + 1))
    else if code == from + 1
    then guarded src (s + 2)
        (do a ← load8 src s; b ← load8 src (s + 1); next (le16 a b + base, s + 2))
    else guarded src (s + 3) (do
      a ← load8 src s
      b ← load8 src (s + 1)
      c ← load8 src (s + 2)
      next (le24 a b c + base, s + 3))

-- case tagLiteral
unfoldable pub checked_literal : (src : List ℕ) (s v offset : ℕ) → Outcome Parsed
unfolding checked_length
checked_literal src s v offset = do
  let x = v / 2 ^ 3
  (len, s') ← if ltb x 29 then next (x + 1, s + 1) else checked_length src (s + 1) x 29 30
  next (if v / 2 ^ 2 % 2 == 1 then copy 0 offset len s' else literals len s')

-- case tagCopy1
unfoldable pub checked_copy1 : (src : List ℕ) (s : ℕ) → Outcome Parsed
unfolding load16
checked_copy1 src s = guarded src (s + 2) (do
  v ← load8 src s
  w ← load16 src s
  let len = v / 2 ^ 2 % 16
  let offset = w / 2 ^ 6 + 1
  if len == 15
      then guarded src (s + 3) (do n ← load8 src (s + 2); next (copy 0 offset (n + 18) (s + 3)))
      else next (copy 0 offset (len + 4) (s + 2)))

-- case tagCopy2
unfoldable pub checked_copy2 : (src : List ℕ) (s : ℕ) → Outcome Parsed
unfolding checked_length le16
checked_copy2 src s = guarded src (s + 3) (do
  v ← load8 src s
  a ← load8 src (s + 1)
  b ← load8 src (s + 2)
  let x = v / 2 ^ 2
  (len, s') ← if leb x 60 then next (x + 4, s + 3) else checked_length src (s + 3) x 61 64
  next (copy 0 (le16 a b + 64) len s'))

-- case 0x3
unfoldable pub checked_copy3 : (src : List ℕ) (s : ℕ) → Outcome Parsed
unfolding checked_length load32
checked_copy3 src s = guarded src (s + 4) (do
  val ← load32 src s
  let lits = val / 2 ^ 3 % 4
  if val / 2 ^ 2 % 2 == 1
      then (do
        let code = val / 2 ^ 5 % 64
        (len, s') ←
            if leb 61 code then checked_length src (s + 4) code 61 64 else next (code + 4, s + 4)
        next (copy lits (val / 2 ^ 11 + 65536) len s'))
      else next (copy (lits + 1) (val / 2 ^ 8 % 65536 + 64) (4 + val / 2 ^ 5 % 8) (s + 3)))

-- The switch of the second loop.
unfoldable pub checked_parse : (src : List ℕ) (s offset : ℕ) → Outcome Parsed
checked_parse src s offset = do
  v ← load8 src s
  if v % 4 == 0
      then checked_literal src s v offset
      else if v % 4 == 1
      then checked_copy1 src s
      else if v % 4 == 2
      then checked_copy2 src s
      else checked_copy3 src s

-- The literals that are fused with a copy.
unfoldable pub checked_extra : (src : List ℕ) → Regs → (extra : ℕ) → Outcome Regs
unfolding copy_from
checked_extra src r extra =
    if extra == 0
    then next r
    else if ltb (length r.dst) (r.d + extra) || ltb (length src) (r.s + extra)
    then corrupt
    else (do
      dst ← copy_from r.dst r.d src r.s extra
      next (record r { dst = dst; d = r.d + extra; s = r.s + extra }))

unfoldable pub checked_execute : (src : List ℕ) → Regs → Parsed → Outcome Regs
unfolding do_literals checked_extra do_copy2
checked_execute src r (literals len s) = do_literals src (record r { s = s }) len
checked_execute src r (copy extra offset len s) = do
  r' ← checked_extra src (record r { s = s; offset = offset }) extra
  do_copy2 r' len

-- One round of the second loop.
unfoldable pub checked_step : (src : List ℕ) → Regs → Outcome Regs
checked_step src r = do p ← checked_parse src r.s r.offset; checked_execute src r p

-- `for s < len(src)`, with fuel.
unfoldable pub checked_loop : (fuel : ℕ) (src : List ℕ) → Regs → Outcome Regs
checked_loop zero src r = if ltb r.s (length src) then stuck else next r
checked_loop (suc fuel) src r =
    let rest = checked_step src r >>= checked_loop fuel src in
    if ltb r.s (length src) then rest else next r
