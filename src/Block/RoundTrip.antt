-- ===== src/Block/RoundTrip.antt =====
-- Decode (decode.go) after EncodeBlock of internal/reference.
use minlz.Prelude.{ℕ, suc, false, ◌==◌, ◌≤◌, ◌≡◌, refl, arith}
use minlz.Prelude.{List, [], ◌∷◌, ◌++◌, All, length, length-append, inl, inr}
use minlz.Prelude.Slices.{All-append}
use minlz.Bytes.{IsByte}
use minlz.Reference.Reader.{Result, ok, err}
use minlz.Reference.Reader
use minlz.Reference.Decoder.{max_block_size, decode_body, run}
use minlz.Reference.Header.{decode_block, read_size}
use minlz.Reference.Encoder.{encode_uncompressed, encode_block}
use minlz.Reference.Returns.{Returns, Returns-weaken}
use minlz.Reference.RoundTrip.Size.{uvarint, append_uvarint-uvarint, read_size-uvarint}
use minlz.Reference.RoundTrip.Size.{uvarint-ne-nil, length-uvarint, uvarint-IsByte}
use minlz.Reference.RoundTrip.Block.{IsBlock, encode_block-IsBlock, compressed_lem}
use minlz.Block.Header
use minlz.Block.Header.{is_minlz, inspect_minlz, decoded_len, inspect_sized}
use minlz.Block.Decode.{S2, Answer, value, fail, panics, decode, decode_inspected}
use minlz.Block.Decode
use minlz.Block.Sized.{SameAnswer}
use minlz.Block.Agrees.{inspect_minlz-some}
use minlz.Block.Whole.{decode-decode_block, decode-settle}

SameAnswer-ok :
    (a : Answer (List ℕ)) (r : Result (List ℕ)) (xs : List ℕ)
    → SameAnswer a r
    → r ≡ ok xs
    → a ≡ value xs
SameAnswer-ok (value ys) (ok zs) xs h e = cc
SameAnswer-ok a (err x) xs h e = cc
SameAnswer-ok a Reader.panic xs h e = cc
SameAnswer-ok a Reader.stuck xs h e = cc
SameAnswer-ok (fail x left) (ok zs) xs h e = elim h [ ]
SameAnswer-ok panics (ok zs) xs h e = elim h [ ]
SameAnswer-ok Decode.stuck (ok zs) xs h e = elim h [ ]

pub uncompressed_value :
    (s2 : S2) (dst src : List ℕ) → decode s2 dst (encode_uncompressed [] src) ≡ value src
unfolding encode_uncompressed decode is_minlz inspect_minlz decoded_len Header.uvarint inspect_sized
    decode_inspected
uncompressed_value s2 dst [] = refl
uncompressed_value s2 dst (b ∷ src) =
    let filled : (suc (length src) == 0) ≡ false = ground arith in
    let found : inspect_minlz (0 ∷ b ∷ src) ≡ inspect_sized 0 (b ∷ src) =
      inspect_minlz-some (0 ∷ b ∷ src) 0 1 refl in
    rw (decode-settle s2 dst 0 (b ∷ src), found, inspect_sized, filled) refl

-- A body is not empty, since the source is not.
pub body-ne-nil :
    (src body : List ℕ) → 1 ≤ length src → decode_body (length src) body ≡ ok src → 1 ≤ length body
unfolding decode_body run
body-ne-nil src [] p e = ground arith
body-ne-nil src (b ∷ body) p e = omega arith

pub compressed_value :
    (s2 : S2) (dst src body : List ℕ)
    → length src ≤ max_block_size
    → 1 ≤ length body
    → All IsByte body
    → decode_block (0 ∷ (uvarint 9 (length src) ++ body)) ≡ ok src
    → decode s2 dst (0 ∷ (uvarint 9 (length src) ++ body)) ≡ value src
compressed_value s2 dst src body fits more bytes e =
    let (b, bs, split) = uvarint-ne-nil 9 (length src) in
    let short : length (b ∷ bs) ≤ 4 = rw split at (length-uvarint 9 3 (length src) (omega arith)) in
    let octets : All IsByte (b ∷ bs) = rw split at (uvarint-IsByte 9 (length src)) in
    let read : read_size 0 0 (b ∷ (bs ++ body)) ≡ ok (length src, body) =
      rw split at (read_size-uvarint (length src) body fits) in
    let e' : decode_block (0 ∷ b ∷ (bs ++ body)) ≡ ok src = rw split at e in
    rw split (
      SameAnswer-ok (decode s2 dst (0 ∷ b ∷ (bs ++ body))) (decode_block (0 ∷ b ∷ (bs ++ body))) src
        (decode-decode_block s2 dst b (bs ++ body) (length src) body
          (All-append IsByte (b ∷ bs) body octets bytes) read
          (omega (arith, short, length-append bs body)) more)
        e')

-- On every slice of bytes that fits a block, EncodeBlock returns a block, and Decode returns the
-- slice for that block and any destination.
pub decode-encode_block :
    (s2 : S2) (dst src : List ℕ)
    → All IsByte src
    → length src ≤ max_block_size
    → Returns (λ d. decode s2 dst d ≡ value src) (encode_block src)
decode-encode_block s2 dst src bytes fits =
    Returns-weaken (IsBlock src) (λ d. decode s2 dst d ≡ value src) _
      (encode_block-IsBlock src bytes fits)
      (λ d c. elim c [
        | inl e ↦ rw e (uncompressed_value s2 dst src)
        | inr (big, coded) ↦
            let (body, split, short, decodes, octets) = coded in
            let whole = compressed_lem src d fits (omega arith) coded in
            let split' : d ≡ 0 ∷ (uvarint 9 (length src) ++ body) =
              rw append_uvarint-uvarint at split in
            rw split' (
              compressed_value s2 dst src body fits (body-ne-nil src body (omega arith) decodes)
                octets (rw split' at whole))
      ])
