-- ===== src/Emit/Write.antt =====
-- emitLiteral, emitRepeat, encodeCopy2, encodeCopy3, emitCopy, emitCopyLits2 and emitCopyLits3:
-- each returns the buffer and the number of bytes that it wrote at its start.
-- A length and an offset are an `int` at or above the least of its operation, so `-` is not cut
-- off at 0. A switch on the length is written once where the source expands encodeCopy3 in emitCopy.
use minlz.Prelude.{ℕ, ◌+◌, ◌-◌, ◌*◌, ◌/◌, ◌^◌, bit_or, List, length, ltb, leb, ◌==◌, if◌then◌else◌}
use minlz.Bytes.{u8, u16, u32}
use minlz.Decode.Machine.{Outcome, next, panic, ◌>>=◌, store32}
use minlz.Emit.Buffer.{store8, store16, on_tail, copy_into}

-- emitLiteral
unfoldable pub emit_literal : (dst lit : List ℕ) → Outcome (List ℕ × ℕ)
unfolding copy_into
emit_literal dst lit =
    let n = length lit - 1 in
    let m = n - 29 in
    if length lit == 0
    then next (dst, 0)
    else if ltb n 29
    then (do b ← store8 dst 0 (bit_or (u8 (u8 n * 2 ^ 3)) 0); copy_into b 1 lit)
    else if ltb n (2 ^ 8 + 29)
    then (do b ← store8 dst 1 (u8 m); b ← store8 b 0 232; copy_into b 2 lit)
    else if ltb n (2 ^ 16 + 29)
    then (do
      b ← store8 dst 2 (u8 (m / 2 ^ 8))
      b ← store8 b 1 (u8 m)
      b ← store8 b 0 240
      copy_into b 3 lit)
    else if ltb n (2 ^ 24 + 29)
    then (do
      b ← store8 dst 3 (u8 (m / 2 ^ 16))
      b ← store8 b 2 (u8 (m / 2 ^ 8))
      b ← store8 b 1 (u8 m)
      b ← store8 b 0 248
      copy_into b 4 lit)
    else panic

-- emitRepeat
unfoldable pub emit_repeat : (dst : List ℕ) (len : ℕ) → Outcome (List ℕ × ℕ)
emit_repeat dst len =
    let n = len - 30 in
    if ltb len 30
    then (do b ← store8 dst 0 (bit_or (u8 (u8 (len - 1) * 2 ^ 3)) 4); next (b, 1))
    else if ltb n 256
    then (do b ← store8 dst 1 (u8 n); b ← store8 b 0 236; next (b, 2))
    else if ltb n 65536
    then (do
      b ← store8 dst 2 (u8 (n / 2 ^ 8))
      b ← store8 b 1 (u8 n)
      b ← store8 b 0 244
      next (b, 3))
    else (do
      b ← store8 dst 3 (u8 (n / 2 ^ 16))
      b ← store8 b 2 (u8 (n / 2 ^ 8))
      b ← store8 b 1 (u8 n)
      b ← store8 b 0 252
      next (b, 4))

-- encodeCopy2
unfoldable pub encode_copy2 : (dst : List ℕ) (offset len : ℕ) → Outcome (List ℕ × ℕ)
unfolding store16
encode_copy2 dst offset len = do
  let n = len - 4 - 60
  b ← store16 dst 1 (u16 (offset - 64))
  if leb (len - 4) 60
      then (do b ← store8 b 0 (bit_or (u8 (u8 (len - 4) * 2 ^ 2)) 2); next (b, 3))
      else if ltb n 256
      then (do b ← store8 b 3 (u8 n); b ← store8 b 0 246; next (b, 4))
      else if ltb n 65536
      then (do
        b ← store8 b 4 (u8 (n / 2 ^ 8))
        b ← store8 b 3 (u8 n)
        b ← store8 b 0 250
        next (b, 5))
      else (do
        b ← store8 b 5 (u8 (n / 2 ^ 16))
        b ← store8 b 4 (u8 (n / 2 ^ 8))
        b ← store8 b 3 (u8 n)
        b ← store8 b 0 254
        next (b, 6))

-- `encoded` of encodeCopy3, with the code of the length.
abbrev pub encoded_word : (offset lits code : ℕ) → ℕ
encoded_word offset lits code =
    bit_or (bit_or (bit_or (u32 (u32 (offset - 65536) * 2 ^ 11)) 7) (u32 (lits * 2 ^ 3)))
      (u32 (code * 2 ^ 5))

-- encodeCopy3
unfoldable pub encode_copy3 : (dst : List ℕ) (offset len lits : ℕ) → Outcome (List ℕ × ℕ)
unfolding store32
encode_copy3 dst offset len lits =
    let n = len - 4 - 60 in
    let encoded = encoded_word offset lits in
    if leb (len - 4) 60
    then (do b ← store32 dst 0 (encoded (len - 4)); next (b, 4))
    else if ltb n 256
    then (do b ← store8 dst 4 (u8 n); b ← store32 b 0 (encoded 61); next (b, 5))
    else if ltb n 65536
    then (do
      b ← store8 dst 5 (u8 (n / 2 ^ 8))
      b ← store8 b 4 (u8 n)
      b ← store32 b 0 (encoded 62)
      next (b, 6))
    else (do
      b ← store8 dst 6 (u8 (n / 2 ^ 16))
      b ← store8 b 5 (u8 (n / 2 ^ 8))
      b ← store8 b 4 (u8 n)
      b ← store32 b 0 (encoded 63)
      next (b, 7))

-- The copy1 of emitCopy: up to 273 bytes, and a repeat of what is longer.
unfoldable pub emit_short_offset : (dst : List ℕ) (offset len : ℕ) → Outcome (List ℕ × ℕ)
unfolding store16 on_tail emit_repeat
emit_short_offset dst offset len =
    let o = u16 ((offset - 1) * 2 ^ 6) in
    if ltb len (15 + 4)
    then (do b ← store16 dst 0 (bit_or (bit_or o (u16 (u16 (len - 4) * 2 ^ 2))) 1); next (b, 2))
    else if ltb len (256 + 18)
    then (do
      b ← store16 dst 0 (bit_or o (bit_or (15 * 2 ^ 2) 1))
      b ← store8 b 2 (u8 (len - 18))
      next (b, 3))
    else (do
      b ← store16 dst 0 (bit_or (bit_or o (u16 (14 * 2 ^ 2))) 1)
      on_tail b 2 (λ tail. emit_repeat tail (len - 18)))

-- emitCopy
unfoldable pub emit_copy : (dst : List ℕ) (offset len : ℕ) → Outcome (List ℕ × ℕ)
unfolding encode_copy2 encode_copy3 emit_short_offset
emit_copy dst offset len =
    if ltb (65535 + 64) offset
    then encode_copy3 dst offset len 0
    else if leb offset 1024
    then emit_short_offset dst offset len
    else encode_copy2 dst offset len

-- The header of emitCopyLits2: `x` is the length's code.
unfoldable pub write_fused : (dst lits : List ℕ) (offset x : ℕ) → Outcome (List ℕ × ℕ)
unfolding store16 copy_into
write_fused dst lits offset x = do
  b ← store16 dst 1 (u16 (offset - 64))
  b ← store8 b 0 (bit_or (bit_or 3 (u8 (x * 2 ^ 5))) (u8 (u8 (length lits - 1) * 2 ^ 3)))
  copy_into b 3 lits

-- emitCopyLits2
unfoldable pub emit_copy_lits2 : (dst lits : List ℕ) (offset len : ℕ) → Outcome (List ℕ × ℕ)
unfolding write_fused on_tail emit_repeat
emit_copy_lits2 dst lits offset len =
    if ltb 7 (len - 4)
    then (do
      (b, n) ← write_fused dst lits offset 7
      on_tail b n (λ tail. emit_repeat tail (len - 4 - 7)))
    else write_fused dst lits offset (len - 4)

-- emitCopyLits3
unfoldable pub emit_copy_lits3 : (dst lits : List ℕ) (offset len : ℕ) → Outcome (List ℕ × ℕ)
unfolding encode_copy3 copy_into
emit_copy_lits3 dst lits offset len = do
  (b, n) ← encode_copy3 dst offset len (length lits)
  (b, _) ← copy_into b n lits
  next (b, n + length lits)

-- emitLiteralSizeN of encode.go
unfoldable pub emit_literal_size_n : ℕ → ℕ
emit_literal_size_n n =
    if n == 0
    then 0
    else if leb n 29
    then 1
    else if ltb n (29 + 2 ^ 8)
    then 2
    else if ltb n (29 + 2 ^ 16)
    then 3
    else 4
