-- ===== src/Encode/RoundTrip.antt =====
-- Decode after Encode, AppendEncoded and TryEncode at the first two levels, and the errors of Encode.
use minlz.Prelude.{ℕ, suc, ◌+◌, ◌≤◌, ◌<◌, ◌≡◌, ◌⊎◌, refl, arith}
use minlz.Prelude.{List, [], ◌∷◌, length, All, Option, none, some, true, false}
use minlz.Prelude.{inl, inr, ltb, Bool-cases, le→ltb, ◌==◌, ◌&&◌}
use minlz.Bytes.{IsByte}
use minlz.Decode.Machine.{next, ◌>>=◌}
use minlz.Reference.Decoder.{max_block_size}
use minlz.Reference.Encoder
use minlz.Block.RoundTrip.{uncompressed_value}
use minlz.Level1.Ends.{Ends, Ends-bind}
use minlz.Encode.Entry.{
  Levels, EncodeError, max_encoded_len, encode_uncompressed, buffer, encoded, tried, compress,
  encode, try_encode,
}
use minlz.Encode.Compress.{Decodes, IsSupported, IsCompressed, length-buffer, compress-IsCompressed}

-- A block, no longer than MaxEncodedLen, that decodes to the source.
abbrev pub IsEncoded : (src : List ℕ) → EncodeError ⊎ List ℕ → Type 0
IsEncoded src (inl e) = ⊥
IsEncoded src (inr block) =
    (m : ℕ) × (max_encoded_len (length src) ≡ some m) × (length block ≤ m) × Decodes src block

pub max_encoded_len_fits : (n : ℕ) → n ≤ max_block_size → (m : ℕ) × (max_encoded_len n ≡ some m)
unfolding max_encoded_len
max_encoded_len_fits n h = elim (Bool-cases (n == 0)) [
  | inl e ↦ (1, rw (le→ltb max_block_size n h, e) refl)
  | inr e ↦ (n + 2, rw (le→ltb max_block_size n h, e) refl)
]

max_encoded_len-some : (n : ℕ) → 1 ≤ n → n ≤ max_block_size → max_encoded_len n ≡ some (n + 2)
unfolding max_encoded_len
max_encoded_len-some n p h =
    let e : (n == 0) ≡ false = ground arith in rw (le→ltb max_block_size n h, e) refl

uncompressed-same : (src : List ℕ) → encode_uncompressed src ≡ Encoder.encode_uncompressed [] src
unfolding encode_uncompressed Encoder.encode_uncompressed
uncompressed-same [] = refl
uncompressed-same (b ∷ src) = let e : (suc (length src) == 0) ≡ false = ground arith in rw e refl

length-uncompressed :
    (src : List ℕ)
    → length src ≤ max_block_size
    → (m : ℕ) × (max_encoded_len (length src) ≡ some m)
      × (length (Encoder.encode_uncompressed [] src) ≤ m)
unfolding Encoder.encode_uncompressed max_encoded_len
length-uncompressed [] h = (1, refl, omega arith)
length-uncompressed (b ∷ src) h =
    (length (b ∷ src) + 2, max_encoded_len-some (length (b ∷ src)) (omega arith) h, omega arith)

uncompressed-IsEncoded :
    (src : List ℕ) → length src ≤ max_block_size → IsEncoded src (inr (encode_uncompressed src))
uncompressed-IsEncoded src h =
    let (m, e, short) = length-uncompressed src h in
    rw (uncompressed-same src) (m, e, short, λ s2 dst. uncompressed_value s2 dst src)

settle-IsEncoded :
    (src : List ℕ) (o : Option (List ℕ × ℕ × ℕ))
    → length src ≤ max_block_size
    → 1 ≤ length src
    → IsCompressed src o
    → IsEncoded src (encoded src o)
settle-IsEncoded src none h p c = absurd c
settle-IsEncoded src (some (out, d, n)) h p c = elim (Bool-cases (ltb 0 n)) [
  | inr e ↦ rw e (uncompressed-IsEncoded src h)
  | inl e ↦ elim c [
    | inl z ↦ absurd (ground arith)
    | inr (size, short, decodes) ↦
        rw e (length src + 2, max_encoded_len-some (length src) p h, omega arith, decodes)
  ]
]

-- Encode of a source that fits a block and is not too short.
pub encode-compress :
    (ls : Levels) (dst src : List ℕ) (level : ℕ)
    → length src ≤ max_block_size
    → 16 ≤ length src
    → encode ls dst src level
      ≡ (compress ls level (buffer dst (length src + 2)) src >>= λ r. next (encoded src r))
unfolding encode
encode-compress ls dst src level h p =
    let e = max_encoded_len-some (length src) (omega arith) h in
    let big = le→ltb (length src) 16 p in rw (e, encode, big) refl

try_encode-compress :
    (ls : Levels) (dst src : List ℕ) (level : ℕ)
    → length src ≤ max_block_size
    → 16 ≤ length src
    → try_encode ls dst src level
      ≡ (compress ls level (buffer dst (length src + 2)) src >>= λ r. next (tried src r))
unfolding try_encode
try_encode-compress ls dst src level h p =
    let e = max_encoded_len-some (length src) (omega arith) h in
    let big = le→ltb (length src) 16 p in rw (e, try_encode, big) refl

-- A source of less than 16 bytes is never compressed.
pub encode-small :
    (ls : Levels) (dst src : List ℕ) (level : ℕ)
    → length src < 16
    → encode ls dst src level ≡ next (inr (encode_uncompressed src))
unfolding encode
encode-small ls dst src level h =
    let (m, e, _) = length-uncompressed src (omega arith) in
    let small : ltb (length src) 16 ≡ true = ground arith in rw (e, encode, small) refl

-- At LevelFastest for every source of up to 2^21 + 65536 bytes, and at LevelBalanced for every one
-- that fits a block, with fewer than 16 bytes or with 512 or more, for every buffer and whatever
-- encoder the slowest level has, Encode returns without a panic and
-- without exhausting its loops: it returns a block that is no longer than MaxEncodedLen of the
-- source's length, and that Decode decodes to the source, into any destination.
pub encode-IsEncoded :
    (ls : Levels) (dst src : List ℕ) (level : ℕ)
    → All IsByte src
    → length src ≤ max_block_size
    → IsSupported level (length src)
    → (length src < 16) ⊎ (512 ≤ length src)
    → Ends (IsEncoded src) (encode ls dst src level)
unfolding encode
encode-IsEncoded ls dst src level bytes fits sup size = elim size [
  | inl h ↦ rw (encode-small ls dst src level h) (uncompressed-IsEncoded src (omega arith))
  | inr h ↦
      let n = length src + 2 in
      rw (encode-compress ls dst src level fits (omega arith)) (
        Ends-bind (IsCompressed src) (IsEncoded src) _ _
          (compress-IsCompressed src bytes fits h ls level (buffer dst n) sup (length-buffer dst n))
          (λ o c. settle-IsEncoded src o (omega arith) (omega arith) c))
]

-- TryEncode gives up, or returns a block that is shorter than the source.
abbrev pub IsTried : (src : List ℕ) → Option (List ℕ) → Type 0
IsTried src none = Unit {0}
IsTried src (some block) = (length block < length src) × Decodes src block

tried-IsTried :
    (src : List ℕ) (o : Option (List ℕ × ℕ × ℕ)) → IsCompressed src o → IsTried src (tried src o)
tried-IsTried src none c = absurd c
tried-IsTried src (some (out, d, n)) c = elim (Bool-cases (ltb 0 n && ltb (d + n) (length src))) [
  | inr e ↦ rw e tt
  | inl e ↦ elim c [
    | inl z ↦ absurd (ground arith)
    | inr (size, short, decodes) ↦ rw e (ground (arith, size), decodes)
  ]
]

-- At LevelFastest for every source of up to 2^21 + 65536 bytes, and at LevelBalanced for every one
-- that fits a block, with fewer than 16 bytes or with 512 or more, for every buffer and whatever
-- encoder the slowest level has, TryEncode returns without a panic
-- and without exhausting its loops: it returns nil, or a block that is shorter than the source and
-- that Decode decodes to the source, into any destination.
pub try_encode-IsTried :
    (ls : Levels) (dst src : List ℕ) (level : ℕ)
    → All IsByte src
    → length src ≤ max_block_size
    → IsSupported level (length src)
    → (length src < 16) ⊎ (512 ≤ length src)
    → Ends (IsTried src) (try_encode ls dst src level)
unfolding try_encode
try_encode-IsTried ls dst src level bytes fits sup size = elim size [
  | inl h ↦
      let (m, e, _) = length-uncompressed src (omega arith) in
      let small : ltb (length src) 16 ≡ true = ground arith in rw (e, try_encode, small) tt
  | inr h ↦
      let n = length src + 2 in
      rw (try_encode-compress ls dst src level fits (omega arith)) (
        Ends-bind (IsCompressed src) (IsTried src) _ _
          (compress-IsCompressed src bytes fits h ls level (buffer dst n) sup (length-buffer dst n))
          (λ o c. tried-IsTried src o c))
]
