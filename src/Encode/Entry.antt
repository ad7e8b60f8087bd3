-- ===== src/Encode/Entry.antt =====
-- Encode, AppendEncoded and TryEncode of encode.go. A destination is the bytes up to its capacity;
-- what is returned is the slice's bytes, and an error is on the left.
use minlz.Prelude.{ℕ, zero, suc, ◌+◌, ◌/◌, ◌^◌, bit_or, List, [], ◌∷◌, ◌++◌, Option, none, some}
use minlz.Prelude.{length, take, drop, replicate, ltb, leb, ◌==◌, ◌&&◌, if◌then◌else◌}
use minlz.Prelude.{◌⊎◌, inl, inr}
use minlz.Bytes.{u8}
use minlz.Decode.Machine.{Outcome, next, panic, ◌>>=◌}
use minlz.Reference.Decoder.{max_block_size}
use minlz.Emit.Buffer.{store8, on_tail}
use minlz.Block.Decode.{backing}
use minlz.Level1.Encode.{encode_block}
use minlz.Level2.Encode.{encode_block_better}

-- encodeBlockBest without a dictionary: the encoder of the slowest level.
pub record Levels : Type 0 where
  pub best : (dst src : List ℕ) → Outcome (List ℕ × ℕ)

pub data EncodeError : Type 0 where
  err_too_large err_invalid_level : EncodeError

-- MaxEncodedLen; `none` is the negative result.
unfoldable pub max_encoded_len : ℕ → Option ℕ
max_encoded_len n = if ltb max_block_size n then none else if n == 0 then some 1 else some (n + 2)

-- encodeUncompressed on an empty `dst`.
unfoldable pub encode_uncompressed : List ℕ → List ℕ
encode_uncompressed src = if length src == 0 then 0 ∷ [] else (0 ∷ 0 ∷ []) ++ src

-- binary.PutUvarint from byte `i` on, by the rounds that are left; nine are enough below 2^64.
unfoldable pub put_uvarint : (rounds : ℕ) → (buf : List ℕ) → (i x : ℕ) → Outcome (List ℕ × ℕ)
put_uvarint zero buf i x = do b ← store8 buf i (u8 x); next (b, i + 1)
put_uvarint (suc k) buf i x =
    let more = (do b ← store8 buf i (bit_or (u8 x) 128); put_uvarint k b (i + 1) (x / 2 ^ 7)) in
    if leb 128 x then more else (do b ← store8 buf i (u8 x); next (b, i + 1))

-- The byte 0 and the size: the buffer, and `d`.
unfoldable pub put_header : (dst : List ℕ) (size : ℕ) → Outcome (List ℕ × ℕ)
unfolding on_tail put_uvarint
put_header dst size = do b ← store8 dst 0 0; on_tail b 1 (λ tail. put_uvarint 9 tail 0 size)

-- The switch on the level.
unfoldable pub encode_level :
    Levels → (level : ℕ) → (dst src : List ℕ) → Outcome (Option (List ℕ × ℕ))
unfolding encode_block encode_block_better
encode_level ls level dst src =
    if level == 1
    then (do r ← encode_block dst src; next (some r))
    else if level == 2
    then (do r ← encode_block_better dst src; next (some r))
    else if level == 3
    then (do r ← ls.best dst src; next (some r))
    else next none

-- The slice of MaxEncodedLen bytes to encode into.
abbrev pub buffer : (dst : List ℕ) (n : ℕ) → List ℕ
buffer dst n = if ltb (length dst) n then replicate n 0 else take n dst

-- The header and the level's encoder, in `dst`: the buffer, `d` and `n`; none for an invalid level.
unfoldable pub compress :
    Levels → (level : ℕ) → (dst src : List ℕ) → Outcome (Option (List ℕ × ℕ × ℕ))
unfolding put_header encode_level
compress ls level dst src = do
  (dst, d) ← put_header dst (length src)
  r ← encode_level ls level (drop d dst) src
  next (elim r [ none ↦ none | some (tail, n) ↦ some (take d dst ++ tail, d, n) ])

-- Encode after the level's encoder: the compressed block, or the source as uncompressed data.
abbrev pub encoded : (src : List ℕ) → Option (List ℕ × ℕ × ℕ) → EncodeError ⊎ List ℕ
encoded src none = inl err_invalid_level
encoded src (some (out, d, n)) = inr (if ltb 0 n then take (d + n) out else encode_uncompressed src)

-- TryEncode after the level's encoder: the compressed block, if it is shorter than the source.
abbrev pub tried : (src : List ℕ) → Option (List ℕ × ℕ × ℕ) → Option (List ℕ)
tried src none = none
tried src (some (out, d, n)) =
    if ltb 0 n && ltb (d + n) (length src) then some (take (d + n) out) else none

-- Encode
unfoldable pub encode : Levels → (dst src : List ℕ) → (level : ℕ) → Outcome (EncodeError ⊎ List ℕ)
unfolding max_encoded_len encode_uncompressed compress
encode ls dst src level = elim (max_encoded_len (length src)) [
  | none ↦ next (inl err_too_large)
  | some m ↦
      if ltb (length src) 16
      then next (inr (encode_uncompressed src))
      else (do r ← compress ls level (buffer dst m) src; next (encoded src r))
]

-- AppendEncoded: `dst` and `spare`, the bytes of its capacity behind them. The result is `dst` and
-- the first bytes of what is behind it after Encode wrote its block there.
unfoldable pub append_encoded :
    Levels → (dst spare src : List ℕ) → (level : ℕ) → Outcome (EncodeError ⊎ List ℕ)
unfolding max_encoded_len encode
append_encoded ls dst spare src level = elim (max_encoded_len (length src)) [
  | none ↦ next (inl err_too_large)
  | some want ↦ do
    let room = buffer spare want
    r ← encode ls room src level
    elim r [
      | inl e ↦ next (inl e)
      | inr res ↦
          if ltb want (length res)
          then panic
          else next (inr (dst ++ take (length res) (backing room res)))
    ]
]

-- TryEncode; `none` is nil.
unfoldable pub try_encode : Levels → (dst src : List ℕ) → (level : ℕ) → Outcome (Option (List ℕ))
unfolding max_encoded_len compress
try_encode ls dst src level = elim (max_encoded_len (length src)) [
  | none ↦ next none
  | some m ↦
      if ltb (length src) 16
      then next none
      else (do r ← compress ls level (buffer dst m) src; next (tried src r))
]
