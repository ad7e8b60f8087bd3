-- ===== src/Encode/Append.antt =====
-- AppendEncoded against Encode.
use minlz.Prelude.{ℕ, ◌≤◌, ◌<◌, ◌≡◌, ◌⊎◌, refl, sym, ◌∙◌, arith}
use minlz.Prelude.{List, ◌++◌, length, take-append, drop, All}
use minlz.Prelude.{some, true, false, inl, inr, ltb, leb, le→ltb, le→leb}
use mathlib.Core.Option.{some_inj}
use minlz.Bytes.{IsByte}
use minlz.Decode.Machine.{next}
use minlz.Reference.Decoder.{max_block_size}
use minlz.Level1.Ends.{Ends-next}
use minlz.Encode.Entry.{Levels, EncodeError, max_encoded_len, buffer, encode, append_encoded}
use minlz.Encode.Compress.{Decodes, IsSupported, length-buffer}
use minlz.Encode.RoundTrip.{max_encoded_len_fits, IsEncoded, encode-IsEncoded}

-- The source fits a block, so that there is a bound on what is appended.
append_encoded-some :
    (ls : Levels) (dst spare src : List ℕ) (level m : ℕ) (block : List ℕ)
    → max_encoded_len (length src) ≡ some m
    → encode ls (buffer spare m) src level ≡ next (inr block)
    → length block ≤ m
    → append_encoded ls dst spare src level ≡ next (inr (dst ++ block))
unfolding append_encoded
append_encoded-some ls dst spare src level m block e f h =
    let fits : ltb m (length block) ≡ false = le→ltb m (length block) h in
    let room : leb (length block) (length (buffer spare m)) ≡ true =
      le→leb (length block) (length (buffer spare m)) (omega (arith, length-buffer spare m)) in
    rw (e, append_encoded, f, fits, room, take-append block (drop (length block) (buffer spare m)))
      refl

-- At LevelFastest for every source of up to 2^21 + 65536 bytes, and at LevelBalanced for every one
-- that fits a block, with fewer than 16 bytes or with 512 or more, AppendEncoded does not panic:
-- whatever the destination, its spare capacity and the encoder of the slowest level are, it returns
-- the destination and behind it a block that Decode decodes to the source.
pub append_encoded-Decodes :
    (ls : Levels) (dst spare src : List ℕ) (level : ℕ)
    → All IsByte src
    → length src ≤ max_block_size
    → IsSupported level (length src)
    → (length src < 16) ⊎ (512 ≤ length src)
    → (block : List ℕ) × (append_encoded ls dst spare src level ≡ next (inr (dst ++ block)))
      × Decodes src block
append_encoded-Decodes ls dst spare src level bytes fits sup size =
    let (m, e) = max_encoded_len_fits (length src) fits in
    let (r, f, c) =
      Ends-next (IsEncoded src) (encode ls (buffer spare m) src level)
        (encode-IsEncoded ls (buffer spare m) src level bytes fits sup size) in
    go m e r f c
  where
    go :
        (m : ℕ)
        → max_encoded_len (length src) ≡ some m
        → (r : EncodeError ⊎ List ℕ) → encode ls (buffer spare m) src level ≡ next r
        → IsEncoded src r
        → (block : List ℕ) × (append_encoded ls dst spare src level ≡ next (inr (dst ++ block)))
          × Decodes src block
    go m e (inl x) f c = absurd c
    go m e (inr block) f (m', e', h, decodes) = (
      block,
      append_encoded-some ls dst spare src level m block e f
          (omega (arith, some_inj.0 (sym e ∙ e'))),
      decodes,
    )
