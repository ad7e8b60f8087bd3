-- ===== src/Reference/Codes/Copy.antt =====
-- emitCopy1, emitCopy2, emitCopy3 and emitCopyLits2 against the tags 1, 2 and 3 of the decoder.
use minlz.Prelude.{ℕ, ◌+◌, ◌-◌, ◌*◌, ◌/◌, ◌^◌, ◌≤◌, ◌<◌, ◌≡◌, bit_or, arith}
use minlz.Prelude.{List, [], ◌∷◌, ◌++◌, append_assoc, length, if◌then◌else◌}
use minlz.Prelude.{ltb, leb}
use minlz.Prelude.Bits.{bit_or_high}
use minlz.Bytes.{u8, u16, put16, put24, le16-put16, le24-put24}
use minlz.Reference.Reader.{ok}
use minlz.Reference.Decoder.{copy, read_command}
use minlz.Reference.Emit.{copy1_word, copy1_long_word}
use minlz.Reference.Emit.{emit_copy1, emit_copy2}
use minlz.Reference.Codes.Literal.{Encodes, length_code, emit_repeat-length_code}

pub copy1_word_sum : (o x : ℕ) → o < 1024 → x < 16 → copy1_word o x ≡ o * 64 + x * 4 + 1
copy1_word_sum o x p q =
    let a : u16 (o * 2 ^ 6) ≡ o * 2 ^ 6 = omega arith in
    let b : u16 (u16 x * 2 ^ 2) ≡ x * 2 ^ 2 = omega arith in
    let c : o * 2 ^ 6 + x * 2 ^ 2 ≡ (o * 16 + x) * 2 ^ 2 = omega arith in
    rw
      (
        a,
        b,
        bit_or_high 6 o (x * 2 ^ 2) (omega arith),
        c,
        bit_or_high 2 (o * 16 + x) 1 (omega arith),
      )
      (omega arith)

pub copy1_long_word_sum : (o : ℕ) → o < 1024 → copy1_long_word o ≡ o * 64 + 61
copy1_long_word_sum o p =
    let a : u16 (o * 2 ^ 6) ≡ o * 2 ^ 6 = omega arith in
    rw (a, bit_or_high 6 o 61 (omega arith)) (omega arith)

-- A copy1 word `w` with the length's code `x` in its bits 2 to 5.
read_copy1_short :
    (offset o x : ℕ)
    → o < 1024
    → x < 15
    → Encodes offset (copy 0 (o + 1) (x + 4)) (put16 (o * 64 + x * 4 + 1))
unfolding read_command
read_copy1_short offset o x p q rest =
    let w = o * 64 + x * 4 + 1 in
    ground (arith, bit_or_high 2 (u8 (w / 2 ^ 8)) (u8 w / 2 ^ 2 / 2 ^ 4))

-- A copy1 of `len` bytes, for 1 ≤ offset ≤ 1024 and 4 ≤ len ≤ 273.
unfoldable pub copy1_code : (offset len : ℕ) → List ℕ
copy1_code offset len =
    if leb len 18
    then put16 ((offset - 1) * 64 + (len - 4) * 4 + 1)
    else put16 ((offset - 1) * 64 + 61) ++ (u8 (len - 18) ∷ [])

pub copy1_code-Encodes :
    (last offset len : ℕ)
    → 1 ≤ offset
    → offset ≤ 1024
    → 4 ≤ len
    → len ≤ 273
    → Encodes last (copy 0 offset len) (copy1_code offset len)
unfolding copy1_code read_command
copy1_code-Encodes last offset len p q r t rest =
    let o = offset - 1 in
    let w = o * 64 + (len - 4) * 4 + 1 in
    let v = o * 64 + 61 in
    ground (
      arith,
      bit_or_high 2 (u8 (w / 2 ^ 8)) (u8 w / 2 ^ 2 / 2 ^ 4),
      bit_or_high 2 (u8 (v / 2 ^ 8)) (u8 v / 2 ^ 2 / 2 ^ 4),
    )

-- A length beyond 273 is a copy1 of 18 bytes and a repeat of the rest.
pub emit_copy1-code :
    (dst : List ℕ) (offset len : ℕ)
    → 1 ≤ offset
    → offset ≤ 1024
    → 4 ≤ len
    → emit_copy1 dst offset len ≡ (
        if leb len 273
        then dst ++ copy1_code offset len
        else dst ++ (copy1_code offset 18 ++ length_code 4 (len - 18)))
unfolding emit_copy1 copy1_code
emit_copy1-code dst offset len p q r =
    let short = put16 (copy1_word (offset - 1) 14) in
    ground (
      arith,
      copy1_word_sum (offset - 1) (len - 4),
      copy1_word_sum (offset - 1) 14,
      copy1_long_word_sum (offset - 1),
      append_assoc dst short (length_code 4 (len - 18)),
      emit_repeat-length_code (dst ++ short) (len - 18),
    )

-- A copy2 of `len` bytes, for 64 ≤ offset < 65600 and 4 ≤ len.
unfoldable pub copy2_code : (offset len : ℕ) → List ℕ
copy2_code offset len =
    let n = len - 64 in
    let o = put16 (offset - 64) in
    if leb len 64
    then ((len - 4) * 4 + 2) ∷ o
    else if ltb n 256
    then 246 ∷ (o ++ (u8 n ∷ []))
    else if ltb n 65536
    then 250 ∷ (o ++ put16 n)
    else 254 ∷ (o ++ put24 n)

pub copy2_tag_sum : (x : ℕ) → x < 64 → bit_or (u8 (u8 x * 2 ^ 2)) 2 ≡ x * 4 + 2
copy2_tag_sum x h =
    let a : u8 (u8 x * 2 ^ 2) ≡ x * 2 ^ 2 = omega arith in
    rw (a, bit_or_high 2 x 2 (omega arith)) (omega arith)

pub emit_copy2-code :
    (dst : List ℕ) (offset len : ℕ)
    → 4 ≤ len
    → emit_copy2 dst offset len ≡ ok (dst ++ copy2_code offset len)
unfolding emit_copy2 copy2_code
emit_copy2-code dst offset len h = ground (arith, copy2_tag_sum (len - 4))

pub copy2_code-Encodes :
    (last offset len : ℕ)
    → 64 ≤ offset
    → offset < 65600
    → 4 ≤ len
    → len < 2 ^ 24
    → Encodes last (copy 0 offset len) (copy2_code offset len)
unfolding copy2_code read_command
copy2_code-Encodes last offset len p q r t rest =
    ground (arith, le16-put16 (offset - 64), le16-put16 (len - 64), le24-put24 (len - 64))

pub length-copy1_code : (offset len : ℕ) → length (copy1_code offset len) ≤ 3
unfolding copy1_code
length-copy1_code offset len = ground arith

pub length-copy2_code : (offset len : ℕ) → length (copy2_code offset len) ≤ 6
unfolding copy2_code
length-copy2_code offset len = ground arith
