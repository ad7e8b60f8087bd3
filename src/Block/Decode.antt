-- ===== src/Block/Decode.antt =====
-- Decode, AppendDecoded and DecodedLen of decode.go. The decoder of Snappy and S2 blocks is another
-- project's, and a parameter. A destination is the bytes up to its capacity.
use minlz.Prelude.{ℕ, List, [], ◌++◌, Option, none, some, length, take, drop, replicate}
use minlz.Prelude.{ltb, leb, ◌==◌, if◌then◌else◌}
use minlz.Reference.Decoder.{max_block_size}
use minlz.Decode.Machine.{Outcome, next, corrupt, panic}
use minlz.Decode.Fast.{min_lz_decode}
use minlz.Decode.Left.{min_lz_left}
use minlz.Block.Header.{BlockError, err_corrupt, err_too_large, Inspected, is_minlz}

-- s2.DecodedLen, with 0 for a negative result, and s2.Decode, with none for an error. As it
-- documents, s2.Decode writes to the destination when that is large enough.
pub record S2 : Type 0 where
  pub decoded_len : List ℕ → ℕ
  pub decode : (dst src : List ℕ) → Option (List ℕ)

-- Go's (value, error) pair, with the value beside an error as well: `[]` is nil. `panics` is a panic of Go, and `stuck` is no Go value: a loop of the
-- model ran out of fuel.
pub data Answer {ℓ} (A : Type ℓ) : Type ℓ where
  value : A → Answer A
  fail : BlockError → A → Answer A
  panics stuck : Answer A

-- The slice of `size` bytes that a block is decoded into.
abbrev pub target : (dst : List ℕ) (size : ℕ) → List ℕ
target dst size = if leb size (length dst) then take size dst else replicate size 0

-- What Decode returns for minLZDecode's result: the destination, which holds `left` at an error.
abbrev pub decoded : (left : List ℕ) → Outcome (List ℕ) → Answer (List ℕ)
decoded left (next out) = value out
decoded left corrupt = fail err_corrupt left
decoded left panic = panics
decoded left Outcome.stuck = Answer.stuck

-- Decode after isMinLZ, which reported no error.
unfoldable pub decode_inspected : S2 → (dst : List ℕ) → Inspected → Answer (List ℕ)
decode_inspected s2 dst i =
    let to = target dst i.size in
    if i.literals
    then value i.block
    else if i.is_minlz
    then decoded (min_lz_left to i.block) (min_lz_decode to i.block)
    else if ltb max_block_size (s2.decoded_len i.block)
    then fail err_too_large []
    else elim (s2.decode dst i.block) [ none ↦ fail err_corrupt [] | some out ↦ value out ]

unfoldable pub decode : S2 → (dst src : List ℕ) → Answer (List ℕ)
unfolding is_minlz decode_inspected
decode s2 dst src =
    let i = is_minlz src in elim i.error [ none ↦ decode_inspected s2 dst i | some e ↦ fail e [] ]

-- DecodedLen
unfoldable pub decoded_size : List ℕ → ℕ × Option BlockError
unfolding is_minlz
decoded_size src = ((is_minlz src).size, (is_minlz src).error)

-- The array behind `spare` after Decode returned `d`: Decode writes to its destination, if `d` fits.
abbrev pub backing : (spare d : List ℕ) → List ℕ
backing spare d = if leb (length d) (length spare) then d ++ drop (length d) spare else spare

-- AppendDecoded: `dst` and `spare`, the bytes of its capacity behind them. A destination that is
-- grown has new zero bytes there. The result is `dst` and the first bytes of what is behind it, or
-- `dst` beside an error.
unfoldable pub append_decoded : S2 → (dst spare src : List ℕ) → Answer (List ℕ)
unfolding decode is_minlz
append_decoded s2 dst spare src =
    let i = is_minlz src in
    let room = if ltb (length spare) i.size then replicate i.size 0 else spare in
    elim i.error [
      | some e ↦ fail e dst
      | none ↦ elim (decode s2 room src) [
        | value d ↦
            if length d == i.size
            then value (dst ++ take i.size (backing room d))
            else fail err_corrupt dst
        | fail e _ ↦ fail e dst
        | panics ↦ panics
        | stuck ↦ stuck
      ]
    ]
