-- ===== src/Block/Header.antt =====
-- isMinLZ and decodedLen of decode.go, and the varint of encoding/binary that they read. An `int`
-- has 64 bits.
use minlz.Prelude.{ℕ, ◌+◌, ◌*◌, ◌%◌, ◌^◌, bit_or, List, [], ◌∷◌, Bool, true, false, ◌&&◌}
use minlz.Prelude.{Option, none, some, length, drop, ltb, ◌==◌, if◌then◌else◌}
use minlz.Reference.Decoder.{max_block_size}

-- The errors of decode.go that a block can cause.
pub data BlockError : Type 0 where
  err_corrupt err_too_large : BlockError

-- binary.Uvarint, from byte `i` on with the value `x` so far: the value and the number of bytes.
-- `none` stands for a count that is not positive: the slice ended, or 64 bits were exceeded.
unfoldable pub uvarint : (i x : ℕ) → List ℕ → Option (ℕ × ℕ)
uvarint i x [] = none
uvarint i x (b ∷ buf) =
    let more = uvarint (i + 1) (bit_or x (b % 2 ^ 7 * 2 ^ (i * 7) % 2 ^ 64)) buf in
    if i == 10
    then none
    else if ltb b 128
    then if i == 9 && ltb 1 b then none else some (bit_or x (b * 2 ^ (i * 7) % 2 ^ 64), i + 1)
    else more

-- decodedLen: the size and the length of the header, or ErrCorrupt.
unfoldable pub decoded_len : List ℕ → Option (ℕ × ℕ)
unfolding uvarint
decoded_len src = elim (uvarint 0 0 src) [
  | none ↦ none
  | some (v, n) ↦ if ltb 0xffffffff v then none else some (v, n)
]

-- The five results of isMinLZ.
pub record Inspected : Type 0 where
  pub is_minlz : Bool
  pub literals : Bool
  pub block : List ℕ
  pub size : ℕ
  pub error : Option BlockError

abbrev pub refuse : BlockError → Inspected
refuse e = record { is_minlz = false; literals = false; block = []; size = 0; error = some e }

-- isMinLZ behind the size `v` of a MinLZ block, of which `src` is left.
unfoldable pub inspect_sized : (v : ℕ) (src : List ℕ) → Inspected
inspect_sized v src =
    if ltb max_block_size v
    then refuse err_too_large
    else if length src == 0
    then refuse err_corrupt
    else if v == 0
    then record { is_minlz = true; literals = true; block = src; size = length src; error = none }
    else if ltb v (length src)
    then record {
      is_minlz = false;
      literals = false;
      block = src;
      size = v;
      error = some err_corrupt;
    }
    else record { is_minlz = true; literals = false; block = src; size = v; error = none }

-- isMinLZ behind the zero byte.
unfoldable pub inspect_minlz : List ℕ → Inspected
unfolding decoded_len inspect_sized
inspect_minlz src = elim (decoded_len src) [
  | none ↦ refuse err_corrupt
  | some (v, n) ↦ inspect_sized v (drop n src)
]

-- isMinLZ of a Snappy or S2 block.
unfoldable pub inspect_legacy : List ℕ → Inspected
unfolding decoded_len
inspect_legacy src = elim (decoded_len src) [
  | none ↦ record {
    is_minlz = false;
    literals = false;
    block = src;
    size = 0;
    error = some err_corrupt;
  }
  | some (v, n) ↦ record { is_minlz = false; literals = false; block = src; size = v; error = none }
]

unfoldable pub is_minlz : List ℕ → Inspected
unfolding inspect_minlz inspect_legacy
is_minlz [] = refuse err_corrupt
is_minlz (b ∷ []) =
    if b == 0
    then record { is_minlz = true; literals = true; block = []; size = 0; error = none }
    else inspect_legacy (b ∷ [])
is_minlz (b ∷ c ∷ src) = if b == 0 then inspect_minlz (c ∷ src) else inspect_legacy (b ∷ c ∷ src)
