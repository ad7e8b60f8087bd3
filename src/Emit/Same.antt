-- ===== src/Emit/Same.antt =====
-- What the emissions write to a buffer is what internal/reference appends.
use minlz.Prelude.{
  ℕ, ◌+◌, ◌-◌, ◌*◌, ◌/◌, ◌%◌, ◌^◌, ◌≤◌, ◌<◌, ◌≡◌, refl, arith, bit_or, List, [], ◌∷◌, ◌++◌,
  append-nil, length, drop,
}
use minlz.Prelude.{true, false, ltb, leb, Bool-cases, inl, inr, if◌then◌else◌}
use minlz.Prelude.Bits.{bit_or_high, bit_or_above}
use minlz.Bytes.{u8, u16, u32, put16}
use minlz.Reference.Emit
use minlz.Reference.Reader.{Result, ok}
use minlz.Decode.Machine.{Outcome, next}
use minlz.Emit.Buffer.{store16, on_tail}
use minlz.Reference.Codes.Copy.{copy2_code, copy2_tag_sum, emit_copy2-code}
use minlz.Reference.Codes.Copy3.{copy3_code, copy3_sum, emit_copy3-code}
use minlz.Emit.Write.{
  encoded_word, emit_repeat, encode_copy2, encode_copy3, emit_short_offset, emit_copy,
}

-- `code` at the start of the buffer, and its length.
abbrev pub wrote : (code dst : List ℕ) → Outcome (List ℕ × ℕ)
wrote code dst = next (code ++ drop (length code) dst, length code)

pub emit_repeat_long :
    (a b c d : ℕ) (dst : List ℕ) (len : ℕ)
    → emit_repeat (a ∷ b ∷ c ∷ d ∷ dst) len ≡ wrote (Emit.emit_repeat [] len) (a ∷ b ∷ c ∷ d ∷ dst)
unfolding emit_repeat Emit.emit_repeat
emit_repeat_long a b c d dst len = ground arith

encode_copy2_long :
    (a b c d e f : ℕ) (dst : List ℕ) (offset len : ℕ)
    → 4 ≤ len
    → encode_copy2 (a ∷ b ∷ c ∷ d ∷ e ∷ f ∷ dst) offset len
      ≡ wrote (copy2_code offset len) (a ∷ b ∷ c ∷ d ∷ e ∷ f ∷ dst)
unfolding encode_copy2 copy2_code
encode_copy2_long a b c d e f dst offset len p =
    let o = offset - 64 in
    let lo : u16 o % 2 ^ 8 ≡ o % 2 ^ 8 = omega arith in
    let hi : u16 o / 2 ^ 8 % 2 ^ 8 ≡ o / 2 ^ 8 % 2 ^ 8 = omega arith in
    rw (lo, hi) (ground (arith, copy2_tag_sum (len - 4)))

pub encoded_word_sum :
    (l offset c : ℕ)
    → l < 4
    → offset < 65536 + 2 ^ 21
    → c < 64
    → encoded_word offset l c ≡ copy3_sum l (offset - 65536) c
unfolding copy3_sum
encoded_word_sum l offset c p q r =
    let o = offset - 65536 in
    let x : u32 (u32 o * 2 ^ 11) ≡ o * 2 ^ 8 * 2 ^ 3 = omega arith in
    let y : u32 (l * 2 ^ 3) ≡ l * 2 ^ 3 = omega arith in
    let z : u32 (c * 2 ^ 5) ≡ c * 2 ^ 5 = omega arith in
    let t : (o * 2 ^ 8 + l) * 2 ^ 3 + 7 ≡ o * 2 ^ 6 * 2 ^ 5 + (l * 8 + 7) = omega arith in
    rw
      (
        x,
        bit_or_high 3 (o * 2 ^ 8) 7 (omega arith),
        y,
        bit_or_above 3 (o * 2 ^ 8) l 7 (omega arith),
        bit_or_high 8 o l (omega arith),
        z,
        t,
        bit_or_above 5 (o * 2 ^ 6) c (l * 8 + 7) (omega arith),
        bit_or_high 6 o c (omega arith),
      )
      (omega arith)

pub encode_copy3_long :
    (a b c d e f g : ℕ) (dst : List ℕ) (offset len lits : ℕ)
    → lits < 4
    → offset < 65536 + 2 ^ 21
    → 4 ≤ len
    → encode_copy3 (a ∷ b ∷ c ∷ d ∷ e ∷ f ∷ g ∷ dst) offset len lits
      ≡ wrote (copy3_code lits offset len) (a ∷ b ∷ c ∷ d ∷ e ∷ f ∷ g ∷ dst)
unfolding encode_copy3 copy3_code
encode_copy3_long a b c d e f g dst offset len lits l p q = elim (Bool-cases (leb (len - 4) 60)) [
  | inl h ↦ rw (h, encoded_word_sum lits offset (len - 4) l p (ground arith)) (ground arith)
  | inr h ↦ rw h (elim (Bool-cases (ltb (len - 4 - 60) 256)) [
    | inl i ↦ rw (i, encoded_word_sum lits offset 61 l p (omega arith)) (ground arith)
    | inr i ↦ rw i (elim (Bool-cases (ltb (len - 4 - 60) 65536)) [
      | inl j ↦ rw (j, encoded_word_sum lits offset 62 l p (omega arith)) (ground arith)
      | inr j ↦ rw (j, encoded_word_sum lits offset 63 l p (omega arith)) (ground arith)
    ])
  ])
]

-- The functions of internal/reference that emit a copy without literals, by the offset.
abbrev pub emit_by_offset : (offset len : ℕ) → Result (List ℕ)
emit_by_offset offset len =
    if leb offset 1024
    then ok (Emit.emit_copy1 [] offset len)
    else if leb offset 65599
    then Emit.emit_copy2 [] offset len
    else Emit.emit_copy3 [] offset len []

store16_long : (a b : ℕ) (dst : List ℕ) (v : ℕ) → store16 (a ∷ b ∷ dst) 0 v ≡ next (put16 v ++ dst)
unfolding store16
store16_long a b dst v = ground arith

repeat_on_tail :
    (a b x y c d e f n : ℕ) (dst : List ℕ)
    → on_tail (x ∷ y ∷ c ∷ d ∷ e ∷ f ∷ dst) 2 (λ tail. emit_repeat tail n)
      ≡ wrote (Emit.emit_repeat (x ∷ y ∷ []) n) (a ∷ b ∷ c ∷ d ∷ e ∷ f ∷ dst)
unfolding on_tail emit_repeat Emit.emit_repeat
repeat_on_tail a b x y c d e f n dst = ground arith

emit_short_offset_long :
    (a b c d e f : ℕ) (dst : List ℕ) (offset len : ℕ)
    → 1 ≤ offset
    → offset ≤ 1024
    → 4 ≤ len
    → emit_short_offset (a ∷ b ∷ c ∷ d ∷ e ∷ f ∷ dst) offset len
      ≡ wrote (Emit.emit_copy1 [] offset len) (a ∷ b ∷ c ∷ d ∷ e ∷ f ∷ dst)
unfolding emit_short_offset Emit.emit_copy1
emit_short_offset_long a b c d e f dst offset len p q r = elim (Bool-cases (ltb len 19)) [
  | inl h ↦ let k : leb len 18 ≡ true = ground arith in rw (h, k) (ground arith)
  | inr h ↦
      let k : leb len 18 ≡ false = ground arith in
      rw (h, k)
        (elim (Bool-cases (ltb len 274)) [
          | inl i ↦ let j : leb len 273 ≡ true = ground arith in rw (i, j) (ground arith)
          | inr i ↦
              let j : leb len 273 ≡ false = ground arith in
              let w = bit_or (bit_or (u16 ((offset - 1) * 2 ^ 6)) 56) 1 in
              rw (i, j, store16_long a b (c ∷ d ∷ e ∷ f ∷ dst) w)
                (repeat_on_tail a b (u8 w) (u8 (w / 2 ^ 8)) c d e f (len - 18) dst)
        ])
]

-- A buffer of seven bytes or more.
pub seven :
    (P : List ℕ → Type 0)
    → ((a b c d e f g : ℕ) (dst : List ℕ) → P (a ∷ b ∷ c ∷ d ∷ e ∷ f ∷ g ∷ dst))
    → (dst : List ℕ) → 7 ≤ length dst
    → P dst
seven P k (a ∷ b ∷ c ∷ d ∷ e ∷ f ∷ g ∷ dst) h = k a b c d e f g dst
seven P k [] h = absurd (omega arith)
seven P k (a ∷ []) h = absurd (omega arith)
seven P k (a ∷ b ∷ []) h = absurd (omega arith)
seven P k (a ∷ b ∷ c ∷ []) h = absurd (omega arith)
seven P k (a ∷ b ∷ c ∷ d ∷ []) h = absurd (omega arith)
seven P k (a ∷ b ∷ c ∷ d ∷ e ∷ []) h = absurd (omega arith)
seven P k (a ∷ b ∷ c ∷ d ∷ e ∷ f ∷ []) h = absurd (omega arith)

-- emitCopy with an offset from 1 to 65536 + 2^21 - 1, a length of at least 4 and a buffer of seven
-- bytes or more does not panic: it writes to the start of the buffer the bytes that emitCopy1,
-- emitCopy2 or emitCopy3 of internal/reference append for that offset and length, leaves the rest
-- of the buffer as it was, and returns the number of those bytes.
pub emit_copy-emit_by_offset :
    (dst : List ℕ) (offset len : ℕ)
    → 7 ≤ length dst
    → 1 ≤ offset
    → offset < 65536 + 2 ^ 21
    → 4 ≤ len
    → (code : List ℕ) × (emit_by_offset offset len ≡ ok code)
      × (emit_copy dst offset len ≡ next (code ++ drop (length code) dst, length code))
unfolding emit_copy
emit_copy-emit_by_offset dst offset len h p q r = elim (Bool-cases (leb offset 1024)) [
  | inl a ↦
      let near : ltb 65599 offset ≡ false = ground arith in
      rw (a, near)
        (
          Emit.emit_copy1 [] offset len,
          refl,
          seven (λ b. emit_short_offset b offset len ≡ wrote (Emit.emit_copy1 [] offset len) b)
              (λ x0 x1 x2 x3 x4 x5 x6 b.
                emit_short_offset_long x0 x1 x2 x3 x4 x5 (x6 ∷ b) offset len p (ground arith) r)
              dst h,
        )
  | inr a ↦ rw a (elim (Bool-cases (leb offset 65599)) [
    | inl b ↦
        let near : ltb 65599 offset ≡ false = ground arith in
        rw (b, near, emit_copy2-code [] offset len r)
          (
            copy2_code offset len,
            refl,
            seven (λ b. encode_copy2 b offset len ≡ wrote (copy2_code offset len) b)
                (λ x0 x1 x2 x3 x4 x5 x6 b.
                  encode_copy2_long x0 x1 x2 x3 x4 x5 (x6 ∷ b) offset len r)
                dst h,
          )
    | inr b ↦
        let far : ltb 65599 offset ≡ true = ground arith in
        rw (b, far, emit_copy3-code [] offset len [] (ground arith) q (omega arith) r, append-nil)
          (
            copy3_code 0 offset len,
            refl,
            seven (λ b. encode_copy3 b offset len 0 ≡ wrote (copy3_code 0 offset len) b)
                (λ x0 x1 x2 x3 x4 x5 x6 b.
                  encode_copy3_long x0 x1 x2 x3 x4 x5 x6 b offset len 0 (omega arith) q r)
                dst h,
          )
  ])
]
