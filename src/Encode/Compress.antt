-- ===== src/Encode/Compress.antt =====
-- The header and the level's encoder behind it, as Encode and TryEncode run them.
use minlz.Prelude.{ℕ, ◌+◌, ◌^◌, ◌/◌, ◌≤◌, ◌≡◌, ◌⊎◌, refl, ◌∙◌, arith}
use minlz.Prelude.{List, [], ◌∷◌, ◌++◌, length, length-append, length-take, length-drop}
use minlz.Prelude.{take, drop, All, Option, none, some, inl, inr, length-replicate}
use minlz.Prelude.{ltb, Bool-cases, ltb→le}
use minlz.Prelude.Slices.{take_append_add}
use mathlib.Core.Path.{subst}
use minlz.Bytes.{IsByte}
use minlz.Reference.Reader.{ok}
use minlz.Reference.Decoder.{max_block_size, decode_body}
use minlz.Reference.Header.{decode_block}
use minlz.Reference.RoundTrip.Size.{uvarint, length-uvarint, append_uvarint-uvarint}
use minlz.Reference.RoundTrip.Block.{compressed_lem}
use minlz.Block.Decode.{S2, value, decode}
use minlz.Block.RoundTrip.{compressed_value, body-ne-nil}
use minlz.Level1.Ends.{Ends, Ends-bind}
use minlz.Level1.RoundTrip.{IsBody, encode_block-IsBody}
use minlz.Encode.Entry.{Levels, buffer, encode_level, compress}
use minlz.Level2.RoundTrip.{encode_block_better-IsBody}
use minlz.Encode.Header.{put_header_lem}

-- A block that Decode decodes to the source, whatever it is given to decode into.
abbrev pub Decodes : (src block : List ℕ) → Type 0
Decodes src block = (s2 : S2) → (dst : List ℕ) → decode s2 dst block ≡ value src

-- The levels whose encoder is modelled, and the sizes for which its offsets do not overflow.
abbrev pub IsSupported : (level n : ℕ) → Type 0
IsSupported level n = ((level ≡ 1) × (n ≤ 2 ^ 21 + 65536)) ⊎ (level ≡ 2)

-- The block at the start of the buffer, unless the encoder gave up.
abbrev pub IsCompressed : (src : List ℕ) → Option (List ℕ × ℕ × ℕ) → Type 0
IsCompressed src none = ⊥
IsCompressed src (some (out, d, n)) =
    (n ≡ 0)
    ⊎ ((length (take (d + n) out) ≡ d + n)
        × (d + n ≤ length src + 2)
        × Decodes src (take (d + n) out))

pub length-buffer : (dst : List ℕ) (n : ℕ) → length (buffer dst n) ≡ n
length-buffer dst n = elim (Bool-cases (ltb (length dst) n)) [
  | inl e ↦ rw e (length-replicate n 0)
  | inr e ↦ rw e (omega (arith, ltb→le (length dst) n e, length-take n dst))
]

block-Decodes :
    (src body : List ℕ)
    → length src ≤ max_block_size
    → 1 ≤ length src
    → length body ≤ length src
    → All IsByte body
    → decode_body (length src) body ≡ ok src
    → Decodes src (0 ∷ (uvarint 9 (length src) ++ body))
block-Decodes src body fits one short octets e s2 dst =
    let d = 0 ∷ (uvarint 9 (length src) ++ body) in
    let whole : decode_block d ≡ ok src =
      compressed_lem src d fits one
        (body, rw (append_uvarint-uvarint 9 (0 ∷ []) (length src)) refl, short, e, octets) in
    compressed_value s2 dst src body fits (body-ne-nil src body one e) octets whole

module _ (src : List ℕ) (bytes : All IsByte src) (fits : length src ≤ max_block_size)
    (big : 512 ≤ length src) where
  -- What encodeBlock left behind the header.
  behind-IsCompressed :
      (head tail out : List ℕ) (d n : ℕ)
      → take d head ≡ 0 ∷ uvarint 9 (length src)
      → d ≡ 1 + length (uvarint 9 (length src))
      → length (uvarint 9 (length src)) ≤ 4
      → length tail + d ≡ length src + 2
      → IsBody src tail (out, n)
      → IsCompressed src (some (take d head ++ out, d, n))
  behind-IsCompressed head tail out d n e count few size (same, inl z) = inl z
  behind-IsCompressed head tail out d n e count few size (same, inr (limit, octets, body)) =
      let front : length (take d head) ≡ d = rw (e, count) (omega arith) in
      let all : take (d + n) (take d head ++ out) ≡ take d head ++ take n out =
        subst (λ (j : ℕ). take (j + n) (take d head ++ out) ≡ take d head ++ take n out) front
          (take_append_add (take d head) out n) in
      let written : length (take n out) ≡ n = omega (arith, length-take n out) in
      inr (
        rw all (length-append (take d head) (take n out) ∙ omega (arith, front, written)),
        omega arith,
        rw (all, e)
            (block-Decodes src (take n out) (omega arith) (omega arith) (omega arith) octets body),
      )

  -- The encoder of the level ends with a body.
  encode_level-IsBody :
      (ls : Levels) (level : ℕ) (tail : List ℕ)
      → IsSupported level (length src)
      → length src + 13 ≤ length tail + length src / 2 ^ 5
      → Ends
          (λ o. (r : List ℕ × ℕ) × (o ≡ some r) × IsBody src tail r)
          (encode_level ls level tail src)
  unfolding encode_level
  encode_level-IsBody ls level tail (inl (e, short)) room = rw e (
      Ends-bind (IsBody src tail) (λ o. (r : List ℕ × ℕ) × (o ≡ some r) × IsBody src tail r) _ _
        (encode_block-IsBody tail src bytes short room) (λ r b. (r, refl, b)))
  encode_level-IsBody ls level tail (inr e) room = rw e (
      Ends-bind (IsBody src tail) (λ o. (r : List ℕ × ℕ) × (o ≡ some r) × IsBody src tail r) _ _
        (encode_block_better-IsBody tail src bytes fits room) (λ r b. (r, refl, b)))

  pub compress-IsCompressed :
      (ls : Levels) (level : ℕ) (dst : List ℕ)
      → IsSupported level (length src)
      → length dst ≡ length src + 2
      → Ends (IsCompressed src) (compress ls level dst src)
  unfolding compress
  compress-IsCompressed ls level dst sup size =
      let u = length (uvarint 9 (length src)) in
      let few : u ≤ 4 = length-uvarint 9 3 (length src) (omega arith) in
      let (head, e, front, same) = put_header_lem dst (length src) (omega arith) in
      let tail = drop (1 + u) head in
      let left : length tail + (1 + u) ≡ length src + 2 = omega (arith, length-drop (1 + u) head) in
      rw e (
        Ends-bind (λ o. (r : List ℕ × ℕ) × (o ≡ some r) × IsBody src tail r) (IsCompressed src) _ _
          (encode_level-IsBody ls level tail sup (omega arith))
          (λ o ((out, n), p, b).
            rw p (behind-IsCompressed head tail out (1 + u) n front refl few left b)))
