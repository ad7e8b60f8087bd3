-- ===== src/Reference/Codes/Copy3.antt =====
-- emitCopy3 against the tag 3 of the decoder, with bit 2 set.
use minlz.Prelude.{ℕ, ◌+◌, ◌-◌, ◌*◌, ◌/◌, ◌%◌, ◌^◌, ◌≤◌, ◌<◌, ◌≡◌, ◌∙◌, bit_or, arith}
use minlz.Prelude.{List, [], ◌∷◌, ◌++◌, append_assoc, length, if◌then◌else◌}
use minlz.Prelude.{ltb, leb, true, false, ◌==◌, le→ltb, Bool-cases, inl, inr}
use minlz.Prelude.Bits.{bit_or_high, bit_or_low, bit_or_above}
use minlz.Bytes.{u8, u32, put16, put24, put32, le24, le24_lem, le16-put16, le24-put24}
use minlz.Reference.Reader.{ok, ◌>>=◌, copy3_length}
use minlz.Reference.Decoder.{read_copy3, copy, read_command, read_copy3, extended}
use minlz.Reference.Emit.{copy3_word}
use minlz.Reference.Emit.{emit_copy3}
use minlz.Reference.Codes.Literal.{Encodes, read_bytes}

pub copy3_word_sum :
    (l o c : ℕ) → l < 4 → o < 2 ^ 21 → c < 64 → copy3_word l o c ≡ o * 2048 + c * 32 + l * 8 + 7
copy3_word_sum l o c p q r =
    let x : u32 (l * 2 ^ 3) ≡ l * 2 ^ 3 = omega arith in
    let y : u32 (u32 o * 2 ^ 11) ≡ o * 2 ^ 11 = omega arith in
    let z : u32 (u32 c * 2 ^ 5) ≡ c * 2 ^ 5 = omega arith in
    let t : o * 2 ^ 11 + (l * 2 ^ 3 + 7) ≡ o * 2 ^ 6 * 2 ^ 5 + (l * 8 + 7) = omega arith in
    rw
      (
        x,
        y,
        z,
        bit_or_low 3 l 7 (omega arith),
        bit_or_low 11 o (l * 2 ^ 3 + 7) (omega arith),
        t,
        bit_or_above 5 (o * 2 ^ 6) c (l * 8 + 7) (omega arith),
        bit_or_high 6 o c (omega arith),
      )
      (omega arith)

-- The word of a copy3, as a sum.
unfoldable pub copy3_sum : (lits offset code : ℕ) → ℕ
copy3_sum l o c = o * 2048 + c * 32 + l * 8 + 7

-- The header of a copy3 of `len` bytes behind `lits` literals, for 4 ≤ len < 2^24.
unfoldable pub copy3_code : (lits offset len : ℕ) → List ℕ
copy3_code lits offset len =
    let n = len - 4 - 60 in
    let word = copy3_sum lits (offset - 65536) in
    if leb (len - 4) 60
    then put32 (word (len - 4))
    else if ltb n 256
    then put32 (word 61) ++ (u8 n ∷ [])
    else if ltb n 65536
    then put32 (word 62) ++ put16 n
    else put32 (word 63) ++ put24 n

pub emit_copy3-code :
    (dst : List ℕ) (offset len : ℕ) (lits : List ℕ)
    → 65536 ≤ offset
    → offset < 65536 + 2 ^ 21
    → length lits < 4
    → 4 ≤ len
    → emit_copy3 dst offset len lits ≡ ok (dst ++ (copy3_code (length lits) offset len ++ lits))
unfolding emit_copy3 copy3_code
emit_copy3-code dst offset len lits p q r h = elim (Bool-cases (leb (len - 4) 60)) [
  | inl a ↦ rw (big, a, word (len - 4) (ground arith), append_assoc)
  | inr a ↦
      rw (big, a)
        (elim (Bool-cases (ltb (len - 4 - 60) 256)) [
          | inl b ↦ rw (b, word 61 (omega arith), append_assoc dst)
          | inr b ↦ rw b (elim (Bool-cases (ltb (len - 4 - 60) 65536)) [
            | inl c ↦ rw (c, word 62 (omega arith), append_assoc dst)
            | inr c ↦ rw (c, word 63 (omega arith), append_assoc dst)
          ])
        ])
]
  where
    big : ltb len 4 ≡ false
    big = le→ltb len 4 h

    word :
        (c : ℕ)
        → c < 64
        → copy3_word (length lits) (offset - 65536) c ≡ copy3_sum (length lits) (offset - 65536) c
    word c k = unfold copy3_sum in copy3_word_sum (length lits) (offset - 65536) c r (omega arith) k

-- The fields of the four bytes of a copy3 word `w`, as the decoder puts them together.
word_fields :
    (w : ℕ)
    → w < 2 ^ 32
    → bit_or (u8 w / 2 ^ 2) (le24 (u8 (w / 2 ^ 8)) (u8 (w / 2 ^ 16)) (u8 (w / 2 ^ 24)) * 2 ^ 6)
      ≡ w / 2 ^ 2
word_fields w h =
    let high = w / 2 ^ 8 in
    let e : le24 (u8 (w / 2 ^ 8)) (u8 (w / 2 ^ 16)) (u8 (w / 2 ^ 24)) ≡ high =
      omega (
        arith,
        le24_lem (u8 high) (u8 (w / 2 ^ 16)) (u8 (w / 2 ^ 24)) (omega arith) (omega arith),
      ) in
    rw (e, bit_or_low 6 high (u8 w / 2 ^ 2) (omega arith)) (omega arith)

read_command_copy3 :
    (v last : ℕ) (src : List ℕ) → v % 8 ≡ 7 → read_command v last src ≡ read_copy3 (v / 2 ^ 2) src
unfolding read_command
read_command_copy3 v last src h =
    let a : (v % 4 == 0) ≡ false = ground arith in
    let b : (v % 4 == 1) ≡ false = ground arith in
    let c : (v % 4 == 2) ≡ false = ground arith in
    let d : (v / 2 ^ 2 % 2 == 1) ≡ true = ground arith in rw (a, b, c, d)

-- A copy3 word `w` and what follows it.
read_word :
    (last w : ℕ) (bs : List ℕ)
    → w < 2 ^ 32
    → w % 8 ≡ 7
    → read_bytes last (put32 w ++ bs) ≡ (do
      (len, rest) ←
          if ltb (w / 2 ^ 5 % 64) 61
          then ok (w / 2 ^ 5 % 64 + 4, bs)
          else extended copy3_length (w / 2 ^ 5 % 64) 61 64 bs
      ok (copy (w / 2 ^ 3 % 4) (w / 2 ^ 11 + 65536) len, rest))
unfolding read_copy3
read_word last w bs h t =
    let a : w / 2 ^ 2 / 2 ^ 3 ≡ w / 2 ^ 5 = omega arith in
    let b : w / 2 ^ 2 / 2 ^ 9 ≡ w / 2 ^ 11 = omega arith in
    let c : u8 w / 2 ^ 2 / 2 % 4 ≡ w / 2 ^ 3 % 4 = omega arith in
    rw (read_command_copy3 (u8 w) last _ (omega arith), word_fields w h, a, b, c)

-- The fields of the sum, and that it fits 32 bits.
copy3_sum_fields :
    (l o c : ℕ)
    → l < 4
    → o < 2 ^ 21
    → c < 64
    → (copy3_sum l o c < 2 ^ 32)
      × (copy3_sum l o c % 8 ≡ 7)
      × (copy3_sum l o c / 2 ^ 5 % 64 ≡ c)
      × (copy3_sum l o c / 2 ^ 3 % 4 ≡ l)
      × (copy3_sum l o c / 2 ^ 11 ≡ o)
unfolding copy3_sum
copy3_sum_fields l o c p q r = omega arith

read_sum :
    (last l o c : ℕ) (bs : List ℕ)
    → l < 4
    → o < 2 ^ 21
    → c < 64
    → read_bytes last (put32 (copy3_sum l o c) ++ bs) ≡ (do
      (len, rest) ← if ltb c 61 then ok (c + 4, bs) else extended copy3_length c 61 64 bs
      ok (copy l (o + 65536) len, rest))
read_sum last l o c bs p q r =
    let (fits, tag, code, lits, offset) = copy3_sum_fields l o c p q r in
    read_word last (copy3_sum l o c) bs fits tag ∙ rw (code, lits, offset)

pub copy3_code-Encodes :
    (last lits offset len : ℕ)
    → lits < 4
    → 65536 ≤ offset
    → offset < 65536 + 2 ^ 21
    → 4 ≤ len
    → len < 2 ^ 24
    → Encodes last (copy lits offset len) (copy3_code lits offset len)
unfolding copy3_code extended
copy3_code-Encodes last lits offset len p q r h k rest =
    let n = len - 4 - 60 in
    elim (Bool-cases (leb (len - 4) 60)) [
      | inl a ↦ rw a (read (len - 4) rest (ground arith) ∙ ground arith)
      | inr a ↦ rw a (elim (Bool-cases (ltb n 256)) [
        | inl b ↦ rw b (read 61 (u8 n ∷ rest) (omega arith) ∙ ground arith)
        | inr b ↦ rw b (elim (Bool-cases (ltb n 65536)) [
          | inl c ↦ rw c (read 62 (put16 n ++ rest) (omega arith) ∙ ground (arith, le16-put16 n))
          | inr c ↦ rw c (read 63 (put24 n ++ rest) (omega arith) ∙ ground (arith, le24-put24 n))
        ])
      ])
    ]
  where
    read :
        (c : ℕ) (bs : List ℕ)
        → c < 64
        → read_bytes last (put32 (copy3_sum lits (offset - 65536) c) ++ bs) ≡ (do
          (m, tl) ← if ltb c 61 then ok (c + 4, bs) else extended copy3_length c 61 64 bs
          ok (copy lits (offset - 65536 + 65536) m, tl))
    read c bs l = read_sum last lits (offset - 65536) c bs p (omega arith) l

pub length-copy3_code : (lits offset len : ℕ) → length (copy3_code lits offset len) ≤ 7
unfolding copy3_code
length-copy3_code lits offset len = ground arith
