-- ===== src/Reference/RoundTrip/Block.antt =====
-- DecodeBlock after EncodeBlock.
use minlz.Prelude.{ℕ, ◌+◌, ◌≤◌, ◌<◌, ◌≡◌, ◌⊎◌, refl, ◌∙◌, ap, arith}
use minlz.Prelude.{List, [], ◌∷◌, ◌++◌, append-nil, length, length-append, Option, none, some, All}
use minlz.Prelude.{take, take-length, leb, le→ltb, ◌==◌, Bool-cases, inl, inr, true}
use minlz.Bytes.{IsByte}
use minlz.Reference.Reader.{ok}
use minlz.Reference.Decoder.{initial, max_block_size, run, decode_body}
use minlz.Reference.Header.{read_size, decode_sized, decode_block}
use minlz.Reference.Encoder.{encode_body, encode_block, encode_uncompressed, max_encoded_len}
use minlz.Reference.Encoder.{append_uvarint, encode_within}
use minlz.Reference.Returns.{Returns, Returns-bind, Returns-weaken}
use minlz.Reference.Run.{run_all}
use minlz.Reference.RoundTrip.Source.{At}
use minlz.Reference.RoundTrip.Found.{Emits-nil}
use minlz.Reference.RoundTrip.Loop.{IsCoded, encode_loop-IsCoded}
use minlz.Reference.RoundTrip.Size.{
  uvarint, append_uvarint-uvarint, read_size-uvarint, uvarint-ne-nil,
}

-- The body that encodeBlock appends, when it does not bail out.
pub encode_body-IsCoded :
    (dst src : List ℕ)
    → (fits : length src ≤ max_block_size) → All IsByte src
    → 11 ≤ length src
    → Returns (IsCoded src dst fits) (encode_body dst src)
unfolding encode_body
encode_body-IsCoded dst src fits bytes big =
    encode_loop-IsCoded src dst fits (length src) _ bytes big
      (record {
        most = 0;
        emits = Emits-nil src 0 1 dst;
        small = omega arith;
        has_repeat = omega arith;
        ordered = omega arith;
        started = omega arith;
        bounded = omega arith;
        below = λ h. omega arith;
      })
      (omega arith) (omega arith)

-- A body that rebuilds the source decodes to it.
pub decode_body-Emits :
    (src bytes : List ℕ) (o : ℕ)
    → ((rest : List ℕ)
        → run_all (length src) (At src 0 1) (bytes ++ rest)
          ≡ run_all (length src) (At src (length src) o) rest)
    → decode_body (length src) bytes ≡ ok src
unfolding decode_body run_all run
decode_body-Emits src bytes o replays =
    let whole : take (length src) src ≡ src = take-length (length src) src (omega arith) in
    let e : run (length bytes) (length src) initial bytes ≡ ok (At src (length src) o) =
      rw append-nil at (replays []) in
    let same : (length src == length src) ≡ true = ground arith in rw (e, whole, same)

-- What encodeBlock appends to `dst` when it returns `o`: nothing, or a body that is no longer than
-- the source, and which the body loop of DecodeBlock decodes to the source.
abbrev pub IsBody : (dst src : List ℕ) → Option (List ℕ) → Type 0
IsBody dst src none = Unit {0}
IsBody dst src (some d) =
    (body : List ℕ) × (d ≡ dst ++ body)
    × (length body ≤ length src)
    × (decode_body (length src) body ≡ ok src)
    × All IsByte body

-- On every slice of 11 or more bytes that fits a block, behind any `dst`, encodeBlock returns
-- without a panic and without exhausting its loops: "not compressible", or `dst` and a body of
-- bytes that is no longer than the source and that the body loop of DecodeBlock decodes to the
-- source.
pub encode_body-IsBody :
    (dst src : List ℕ)
    → length src ≤ max_block_size
    → All IsByte src
    → 11 ≤ length src
    → Returns (IsBody dst src) (encode_body dst src)
encode_body-IsBody dst src fits bytes big =
    Returns-weaken (IsCoded src dst fits) (IsBody dst src) _
      (encode_body-IsCoded dst src fits bytes big) body
  where
    body : (o : Option (List ℕ)) → IsCoded src dst fits o → IsBody dst src o
    body none c = tt
    body (some d) (most, o, e, short) = (
      e.bytes,
      e.split,
      omega (arith, short, ap (λ (xs : List ℕ). length xs) e.split, length-append dst e.bytes),
      decode_body-Emits src e.bytes o e.replays,
      e.octets bytes,
    )

-- The block of a header and a body.
decode_block-sized :
    (n : ℕ) (body : List ℕ)
    → n ≤ max_block_size
    → decode_block (0 ∷ (uvarint 9 n ++ body)) ≡ decode_sized n body
unfolding decode_block
decode_block-sized n body h =
    let (b, bs, e) = uvarint-ne-nil 9 n in
    let r : read_size 0 0 (b ∷ (bs ++ body)) ≡ ok (n, body) =
      rw e at (read_size-uvarint n body h) in
    rw (e, decode_block, r)

decode_sized_lem :
    (src body : List ℕ)
    → 1 ≤ length src
    → length src ≤ max_block_size
    → length body ≤ length src
    → decode_sized (length src) body ≡ decode_body (length src) body
unfolding decode_sized
decode_sized_lem src body p q r = ground arith

-- A compressed block decodes to its source.
pub compressed_lem :
    (src d : List ℕ)
    → (fits : length src ≤ max_block_size) → 1 ≤ length src
    → IsBody (append_uvarint 9 (0 ∷ []) (length src)) src (some d)
    → decode_block d ≡ ok src
compressed_lem src d fits p (body, split, short, decodes, _) =
    rw (split, append_uvarint-uvarint 9 (0 ∷ []) (length src))
      (decode_block-sized (length src) body fits ∙ decode_sized_lem src body p fits short ∙ decodes)

-- A block of literals decodes to its source.
pub uncompressed_lem : (src : List ℕ) → decode_block (encode_uncompressed [] src) ≡ ok src
unfolding encode_uncompressed decode_block read_size
uncompressed_lem [] = refl
uncompressed_lem (b ∷ src) = refl

max_encoded_len-some : (n : ℕ) → n ≤ max_block_size → (m : ℕ) × (max_encoded_len n ≡ some m)
unfolding max_encoded_len
max_encoded_len-some n h = elim (Bool-cases (n == 0)) [
  | inl a ↦ (1, rw (le→ltb max_block_size n h, a))
  | inr a ↦ (n + 2, rw (le→ltb max_block_size n h, a))
]

-- What EncodeBlock returns: the block of literals, or a header and the body of encodeBlock.
abbrev pub IsBlock : (src d : List ℕ) → Type 0
IsBlock src d =
    (d ≡ encode_uncompressed [] src)
    ⊎ ((16 < length src) × IsBody (append_uvarint 9 (0 ∷ []) (length src)) src (some d))

pub encode_block-IsBlock :
    (src : List ℕ)
    → All IsByte src
    → length src ≤ max_block_size
    → Returns (IsBlock src) (encode_block src)
unfolding encode_block encode_within
encode_block-IsBlock src bytes fits =
    let (n, e) = max_encoded_len-some (length src) fits in
    rw (e, encode_within)
      (elim (Bool-cases (leb (length src) 16)) [
        | inl a ↦ rw a (inl refl)
        | inr a ↦
            let header = append_uvarint 9 (0 ∷ []) (length src) in
            let big : 16 < length src = ground arith in
            rw a (
              Returns-bind (IsBody header src) (IsBlock src) _ _
                (encode_body-IsBody header src fits bytes (omega arith)) (settle big))
      ])
  where
    settle :
        16 < length src
        → (o : Option (List ℕ)) → IsBody (append_uvarint 9 (0 ∷ []) (length src)) src o
        → Returns
            (IsBlock src)
            (elim o [ none ↦ ok (encode_uncompressed [] src) | some dst ↦ ok dst ])
    settle p none c = inl refl
    settle p (some d) c = inr (p, c)

-- On every slice of bytes that fits a block, EncodeBlock returns a block, without a panic and
-- without exhausting its loops, and DecodeBlock decodes that block to the slice.
pub decode_block-encode_block :
    (src : List ℕ)
    → All IsByte src
    → length src ≤ max_block_size
    → Returns (λ d. decode_block d ≡ ok src) (encode_block src)
decode_block-encode_block src bytes fits =
    Returns-weaken (IsBlock src) (λ d. decode_block d ≡ ok src) _
      (encode_block-IsBlock src bytes fits)
      (λ d c. elim c [
        | inl e ↦ rw e (uncompressed_lem src)
        | inr (big, body) ↦ compressed_lem src d fits (omega arith) body
      ])
