-- ===== src/Reference/Reader.antt =====
-- The closures of DecodeBlock (internal/reference/decoder.go) that consume `src`, and its errors.
use minlz.Prelude.{ℕ, List, [], ◌∷◌, Option, none, some}
use minlz.Prelude.{length, take, drop, leb, if◌then◌else◌}
use minlz.Bytes.{le16, le24}

-- One constructor for each error that DecodeBlock returns.
pub data Error : Type 0 where
  no_input not_minlz no_length invalid_size size_too_small : Error
  literal_length literals_exceed_dst literals_exceed_src : Error
  copy1_offset copy1_length copy2_offset copy2_length fused_offset : Error
  copy3_value copy3_length extra_literals extra_exceed_dst : Error
  copy_exceeds_dst offset_exceeds_dst output_size : Error

-- Go's (value, error) pair. `panic` is an index out of range, and `stuck` is no Go value: the
-- model's loop ran out of fuel.
pub data Result {ℓ} (A : Type ℓ) : Type ℓ where
  ok : A → Result A
  err : Error → Result A
  panic stuck : Result A

infixl 5 ◌>>=◌
abbrev pub ◌>>=◌ {ℓ κ} : {A : Type ℓ} {B : Type κ} → Result A → (A → Result B) → Result B
ok a >>= f = f a
err e >>= f = err e
panic >>= f = panic
stuck >>= f = stuck

-- `v, ok = read(); if !ok { return nil, e }`
abbrev pub require {ℓ} : {A : Type ℓ} → Error → Option A → Result A
require e none = err e
require e (some a) = ok a

unfoldable pub read_one : List ℕ → Option (ℕ × List ℕ)
read_one [] = none
read_one (a ∷ src) = some (a, src)

unfoldable pub read_two : List ℕ → Option (ℕ × List ℕ)
read_two [] = none
read_two (a ∷ []) = none
read_two (a ∷ b ∷ src) = some (le16 a b, src)

unfoldable pub read_three : List ℕ → Option (ℕ × List ℕ)
read_three [] = none
read_three (a ∷ []) = none
read_three (a ∷ b ∷ []) = none
read_three (a ∷ b ∷ c ∷ src) = some (le24 a b c, src)

unfoldable pub read_n : ℕ → List ℕ → Option (List ℕ × List ℕ)
read_n n src = if leb n (length src) then some (take n src, drop n src) else none
