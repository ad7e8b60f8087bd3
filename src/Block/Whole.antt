-- ===== src/Block/Whole.antt =====
-- Decode (decode.go) as a whole: against DecodeBlock and EncodeBlock of internal/reference, and for
-- any destination; DecodedLen and AppendDecoded against Decode.
use minlz.Prelude.{ℕ, ◌+◌, ◌-◌, ◌≤◌, ◌≡◌, refl, sym, ◌∙◌, arith}
use minlz.Prelude.{List, [], ◌∷◌, All, length, drop}
use minlz.Prelude.{ltb, Bool-cases, inl, inr, true}
use minlz.Prelude.Slices.{All-drop}
use minlz.Bytes.{IsByte}
use minlz.Reference.Reader.{Result, ok, err}
use minlz.Reference.Reader
use minlz.Reference.Header.{read_size, decode_sized, decode_block}
use minlz.Block.Header.{BlockError, err_corrupt, inspect_sized, inspect_minlz, is_minlz}
use minlz.Block.Header.{refuse}
use minlz.Block.Decode.{S2, Answer, value, fail, panics, decode, decoded_size, append_decoded}
use minlz.Block.Decode
use minlz.Block.Sizes.{read_size-uvarint}
use minlz.Block.Sized.{SameAnswer, settle, inspect_sized-SameAnswer}
use minlz.Block.Agrees.{IsSized, inspect_minlz-cases, inspect_minlz-some}

pub decode-settle :
    (s2 : S2) (dst : List ℕ) (b : ℕ) (src : List ℕ)
    → decode s2 dst (0 ∷ b ∷ src) ≡ settle s2 dst (inspect_minlz (b ∷ src))
unfolding decode is_minlz
decode-settle s2 dst b src = refl

decode_block-read_size :
    (b v : ℕ) (src rest : List ℕ)
    → read_size 0 0 (b ∷ src) ≡ ok (v, rest)
    → decode_block (0 ∷ b ∷ src) ≡ decode_sized v rest
unfolding decode_block
decode_block-read_size b v src rest e = rw (decode_block, e)

-- Where isMinLZ finds a size and a body, both decoders go on with these.
IsSized-SameAnswer :
    (s2 : S2) (dst : List ℕ) (b : ℕ) (src : List ℕ)
    → IsSized (b ∷ src)
    → SameAnswer (decode s2 dst (0 ∷ b ∷ src)) (decode_block (0 ∷ b ∷ src))
IsSized-SameAnswer s2 dst b src i =
    rw (decode-settle s2 dst b src, i.inspected, decode_block-read_size b i.size src i.rest i.read)
      (inspect_sized-SameAnswer s2 dst i.rest i.size i.fits i.more i.bytes)

pub decode-refused :
    (s2 : S2) (dst : List ℕ) (b : ℕ) (src : List ℕ) (e : BlockError)
    → inspect_minlz (b ∷ src) ≡ refuse e
    → decode s2 dst (0 ∷ b ∷ src) ≡ fail e []
decode-refused s2 dst b src e h = rw (decode-settle s2 dst b src, h) refl

pub SameAnswer-value :
    (a : Answer (List ℕ)) (r : Result (List ℕ)) (xs : List ℕ)
    → SameAnswer a r
    → a ≡ value xs
    → r ≡ ok xs
SameAnswer-value (value ys) (ok zs) xs h e = cc
SameAnswer-value (value ys) (err x) xs h e = elim h [ ]
SameAnswer-value (value ys) Reader.panic xs h e = elim h [ ]
SameAnswer-value (value ys) Reader.stuck xs h e = elim h [ ]
SameAnswer-value (fail x left) r xs h e = cc
SameAnswer-value panics r xs h e = elim h [ ]
SameAnswer-value Decode.stuck r xs h e = elim h [ ]

-- Whatever Decode returns for a MinLZ block without an error, for any destination, DecodeBlock
-- returns for the same block.
pub decode_value :
    (s2 : S2) (dst src xs : List ℕ)
    → All IsByte src
    → decode s2 dst (0 ∷ src) ≡ value xs
    → decode_block (0 ∷ src) ≡ ok xs
unfolding decode is_minlz decode_block
decode_value s2 dst [] xs bytes h = cc
decode_value s2 dst (b ∷ src) xs bytes h = elim (inspect_minlz-cases (b ∷ src) bytes) [
  | inl i ↦
      SameAnswer-value (decode s2 dst (0 ∷ b ∷ src)) (decode_block (0 ∷ b ∷ src)) xs
        (IsSized-SameAnswer s2 dst b src i) h
  | inr (e, refused) ↦
      let failed : fail e [] ≡ value xs = sym (decode-refused s2 dst b src e refused) ∙ h in cc
]

refused_size :
    (v : ℕ) (rest : List ℕ)
    → ltb 0xffffffff v ≡ true
    → decode_sized v rest ≡ err Reader.invalid_size
unfolding decode_sized
refused_size v rest h = ground arith

-- On every MinLZ block whose size DecodeBlock reads from at most nine bytes, and of which at least
-- one byte follows, Decode returns for any destination what DecodeBlock returns, or both return an
-- error.
pub decode-decode_block :
    (s2 : S2) (dst : List ℕ) (b : ℕ) (src : List ℕ) (size : ℕ) (rest : List ℕ)
    → All IsByte (b ∷ src)
    → read_size 0 0 (b ∷ src) ≡ ok (size, rest)
    → length (b ∷ src) ≤ length rest + 9
    → 1 ≤ length rest
    → SameAnswer (decode s2 dst (0 ∷ b ∷ src)) (decode_block (0 ∷ b ∷ src))
decode-decode_block s2 dst b src size rest bytes read short more =
    let (n, e, _, left) = read_size-uvarint (b ∷ src) 0 0 size rest bytes read (omega arith) in
    let start : n - 0 ≡ n = omega arith in
    let left' : drop n (b ∷ src) ≡ rest = rw start at left in
    let bytes' : All IsByte rest = rw left' at (All-drop IsByte n (b ∷ src) bytes) in
    let found = inspect_minlz-some (b ∷ src) size n e in
    let read' = decode_block-read_size b size src rest read in
    elim (Bool-cases (ltb 0xffffffff size)) [
      | inl a ↦
          rw
            (
              decode-refused s2 dst b src err_corrupt (rw a at found),
              read',
              refused_size size rest a,
            )
            tt
      | inr a ↦
          let found' : inspect_minlz (b ∷ src) ≡ inspect_sized size rest = rw (a, left') at found in
          rw (decode-settle s2 dst b src, found', read')
            (inspect_sized-SameAnswer s2 dst rest size (ground arith) more bytes')
    ]
