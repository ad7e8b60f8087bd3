-- ===== src/Reference/Emit.antt =====
-- The functions of internal/reference/encoder.go that append one operation to `dst`.
-- A length and an offset are an `int` that the caller keeps at or above its minimum (1 for a
-- literal run and a repeat; offsets 1, 64 and 65536), so `-` is not cut off at 0.
use minlz.Prelude.{ℕ, ◌-◌, ◌*◌, ◌^◌, bit_or, List, [], ◌∷◌, ◌++◌}
use minlz.Prelude.{length, ltb, leb, ◌==◌, if◌then◌else◌}
use minlz.Bytes.{u8, u16, u32, put16, put24, put32}
use minlz.Reference.Reader.{Result, ok, panic}

-- `uint8(x)<<3`
abbrev pub tag_length : ℕ → ℕ
tag_length x = u8 (u8 x * 2 ^ 3)

unfoldable pub emit_literals : (dst lits : List ℕ) → List ℕ
emit_literals dst lits =
    let n = length lits - 30 in
    if length lits == 0
    then dst
    else if ltb (length lits) 30
    then (dst ++ (bit_or 0 (tag_length (length lits - 1)) ∷ [])) ++ lits
    else if ltb n 256
    then (dst ++ (bit_or 0 (tag_length 29) ∷ u8 n ∷ [])) ++ lits
    else if ltb n 65536
    then (dst ++ (bit_or 0 (tag_length 30) ∷ put16 n)) ++ lits
    else (dst ++ (bit_or 0 (tag_length 31) ∷ put24 n)) ++ lits

unfoldable pub emit_repeat : (dst : List ℕ) (len : ℕ) → List ℕ
emit_repeat dst len =
    let n = len - 1 - 29 in
    if ltb (len - 1) 29
    then dst ++ (bit_or (tag_length (len - 1)) 4 ∷ [])
    else if ltb n 256
    then dst ++ (bit_or (tag_length 29) 4 ∷ u8 n ∷ [])
    else if ltb n 65536
    then dst ++ (bit_or (tag_length 30) 4 ∷ put16 n)
    else dst ++ (bit_or (tag_length 31) 4 ∷ put24 n)

-- `uint16(offset<<6) | uint16(x)<<2 | tagCopy1`
abbrev pub copy1_word : (offset x : ℕ) → ℕ
copy1_word offset x = bit_or (bit_or (u16 (offset * 2 ^ 6)) (u16 (u16 x * 2 ^ 2))) 1

-- `uint16(offset<<6) | (uint16(15)<<2 | tagCopy1)`
abbrev pub copy1_long_word : (offset : ℕ) → ℕ
copy1_long_word offset = bit_or (u16 (offset * 2 ^ 6)) (bit_or (15 * 2 ^ 2) 1)

unfoldable pub emit_copy1 : (dst : List ℕ) (offset len : ℕ) → List ℕ
unfolding emit_repeat
emit_copy1 dst offset len =
    if leb len 18
    then dst ++ put16 (copy1_word (offset - 1) (len - 4))
    else if leb len 273
    then dst ++ (put16 (copy1_long_word (offset - 1)) ++ (u8 (len - 18) ∷ []))
    else emit_repeat (dst ++ put16 (copy1_word (offset - 1) 14)) (len - 18)

-- `tagCopy2 | uint8(x)<<2`, in either order.
abbrev pub copy2_tag : ℕ → ℕ
copy2_tag x = bit_or 2 (u8 (u8 x * 2 ^ 2))

unfoldable pub emit_copy2 : (dst : List ℕ) (offset len : ℕ) → Result (List ℕ)
emit_copy2 dst offset len =
    let n = len - 4 - 60 in
    let o = offset - 64 in
    if ltb len 4
    then panic
    else if leb (len - 4) 60
    then ok (dst ++ (bit_or (u8 (u8 (len - 4) * 2 ^ 2)) 2 ∷ put16 o))
    else if ltb n 256
    then ok (dst ++ (copy2_tag 61 ∷ (put16 o ++ (u8 n ∷ []))))
    else if ltb n 65536
    then ok (dst ++ (copy2_tag 62 ∷ (put16 o ++ put16 n)))
    else ok (dst ++ (copy2_tag 63 ∷ (put16 o ++ put24 n)))

-- The 32 bits of a copy3: tag and bit 2, the literal count, the offset, the length's code.
abbrev pub copy3_word : (lits offset code : ℕ) → ℕ
copy3_word lits offset code =
    bit_or (bit_or (bit_or 7 (u32 (lits * 2 ^ 3))) (u32 (u32 offset * 2 ^ 11)))
      (u32 (u32 code * 2 ^ 5))

unfoldable pub emit_copy3 : (dst : List ℕ) (offset len : ℕ) (lits : List ℕ) → Result (List ℕ)
emit_copy3 dst offset len lits =
    let n = len - 4 - 60 in
    let word = copy3_word (length lits) (offset - 65536) in
    if ltb len 4
    then panic
    else if leb (len - 4) 60
    then ok ((dst ++ put32 (word (len - 4))) ++ lits)
    else if ltb n 256
    then ok ((dst ++ (put32 (word 61) ++ (u8 n ∷ []))) ++ lits)
    else if ltb n 65536
    then ok ((dst ++ (put32 (word 62) ++ put16 n)) ++ lits)
    else ok ((dst ++ (put32 (word 63) ++ put24 n)) ++ lits)

-- `tagCopyLits2 | uint8(x<<5) | uint8(len(lits)-1)<<3`
abbrev pub fused_tag : (x lits : ℕ) → ℕ
fused_tag x lits = bit_or (bit_or 3 (u8 (x * 2 ^ 5))) (tag_length (lits - 1))

-- The caller passes 1 to 4 literals and a length of at least 4.
unfoldable pub emit_copy_lits2 : (dst lits : List ℕ) (offset len : ℕ) → List ℕ
unfolding emit_repeat
emit_copy_lits2 dst lits offset len =
    let o = offset - 64 in
    if ltb 7 (len - 4)
    then emit_repeat ((dst ++ (fused_tag 7 (length lits) ∷ put16 o)) ++ lits) (len - 4 - 7)
    else (dst ++ (fused_tag (len - 4) (length lits) ∷ put16 o)) ++ lits
