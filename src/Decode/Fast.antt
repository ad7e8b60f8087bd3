-- ===== src/Decode/Fast.antt =====
-- The first loop of minLZDecodeGo, which runs while 11 more bytes can be read, and the whole
-- function.
use minlz.Prelude.{ℕ, zero, suc, ◌+◌, ◌/◌, ◌%◌, ◌^◌, List, length, ltb, leb, ◌==◌, if◌then◌else◌}
use minlz.Decode.Machine.{Outcome, next, corrupt, stuck, ◌>>=◌, Regs, load8, load16, load32}
use minlz.Decode.Machine.{store32, do_copy, do_literals, Parsed, literals, copy}
use minlz.Decode.Checked.{checked_loop}

-- A length whose code reaches `from`, in 1, 2 or 3 more bytes at `s`. Three bytes are loaded as
-- the top of the four that begin one before.
unfoldable pub fast_length : (src : List ℕ) (before code from base : ℕ) → Outcome (ℕ × ℕ)
unfolding load16 load32
fast_length src before code from base =
    if code == from
    then (do a ← load8 src (before + 1); next (base + a, before + 2))
    else if code == from + 1
    then (do a ← load16 src (before + 1); next (base + a, before + 3))
    else (do a ← load32 src before; next (base + a / 2 ^ 8, before + 4))

-- case tagLiteral
unfoldable pub fast_literal : (src : List ℕ) (s v offset : ℕ) → Outcome Parsed
fast_literal src s v offset = do
  let x = v / 2 ^ 3
  (len, s') ← if ltb x 29 then next (x + 1, s + 1) else fast_length src s x 29 30
  next (if v / 2 ^ 2 % 2 == 1 then copy 0 offset len s' else literals len s')

-- case tagCopy1
unfoldable pub fast_copy1 : (src : List ℕ) (s : ℕ) → Outcome Parsed
unfolding load16
fast_copy1 src s = do
  v ← load8 src s
  w ← load16 src s
  let len = v / 2 ^ 2 % 16
  let offset = w / 2 ^ 6 + 1
  if len == 15
      then (do n ← load8 src (s + 2); next (copy 0 offset (n + 18) (s + 3)))
      else next (copy 0 offset (len + 4) (s + 2))

-- case tagCopy2
unfoldable pub fast_copy2 : (src : List ℕ) (s : ℕ) → Outcome Parsed
unfolding load16
fast_copy2 src s = do
  v ← load8 src s
  offset ← load16 src (s + 1)
  let x = v / 2 ^ 2
  (len, s') ← if leb x 60 then next (x + 4, s + 3) else fast_length src (s + 2) x 61 64
  next (copy 0 (offset + 64) len s')

-- case 0x3
unfoldable pub fast_copy3 : (src : List ℕ) (s : ℕ) → Outcome Parsed
unfolding load32
fast_copy3 src s = do
  val ← load32 src s
  let lits = val / 2 ^ 3 % 4
  if val / 2 ^ 2 % 2 == 1
      then (do
        let code = val / 2 ^ 5 % 64
        (len, s') ←
            if ltb code 61 then next (code + 4, s + 4) else fast_length src (s + 3) code 61 64
        next (copy lits (val / 2 ^ 11 + 65536) len s'))
      else next (copy (lits + 1) (val / 2 ^ 8 % 65536 + 64) (4 + val / 2 ^ 5 % 8) (s + 3))

-- The switch of the first loop.
unfoldable pub fast_parse : (src : List ℕ) (s offset : ℕ) → Outcome Parsed
fast_parse src s offset = do
  v ← load8 src s
  if v % 4 == 0
      then fast_literal src s v offset
      else if v % 4 == 1
      then fast_copy1 src s
      else if v % 4 == 2
      then fast_copy2 src s
      else fast_copy3 src s

-- The literals that are fused with a copy: four bytes are stored, whatever their number.
unfoldable pub fast_extra : (src : List ℕ) → Regs → (extra : ℕ) → Outcome Regs
fast_extra src r extra =
    if extra == 0 then next r else if ltb (length r.dst) (r.d + 4) then corrupt else (do
      word ← load32 src r.s
      dst ← store32 r.dst r.d word
      next (record r { dst = dst; d = r.d + extra; s = r.s + extra }))

unfoldable pub fast_execute : (src : List ℕ) → Regs → Parsed → Outcome Regs
unfolding do_literals fast_extra do_copy
fast_execute src r (literals len s) = do_literals src (record r { s = s }) len
fast_execute src r (copy extra offset len s) = do
  r' ← fast_extra src (record r { s = s; offset = offset }) extra
  do_copy r' len

-- One round of the first loop.
unfoldable pub fast_step : (src : List ℕ) → Regs → Outcome Regs
fast_step src r = do p ← fast_parse src r.s r.offset; fast_execute src r p

-- `for s < len(src)-11`, with fuel.
unfoldable pub fast_loop : (fuel : ℕ) (src : List ℕ) → Regs → Outcome Regs
fast_loop zero src r = if ltb (r.s + 11) (length src) then stuck else next r
fast_loop (suc fuel) src r =
    let rest = fast_step src r >>= fast_loop fuel src in
    if ltb (r.s + 11) (length src) then rest else next r

-- minLZDecodeGo: `next` of the filled destination is the return of 0. Each round takes a byte of
-- `src` at least, so its length is fuel enough for either loop.
unfoldable pub min_lz_decode : (dst src : List ℕ) → Outcome (List ℕ)
min_lz_decode dst src = do
  r ← fast_loop (length src) src (record { dst = dst; d = 0; s = 0; offset = 1 })
  r' ← checked_loop (length src) src r
  if r'.d == length r'.dst then next r'.dst else corrupt
