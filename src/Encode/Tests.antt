-- ===== src/Encode/Tests.antt =====
-- Encode, AppendEncoded and TryEncode at concrete sources.
use minlz.Prelude.{ℕ, zero, suc, List, [], ◌∷◌, ◌++◌, length, replicate, length-replicate}
use minlz.Prelude.{All, ◌≡◌, refl, inl, inr, arith}
use minlz.Bytes.{IsByte}
use minlz.Decode.Machine.{next}
use minlz.Level1.Ends.{Ends}
use minlz.Encode.Entry.{Levels, encode, append_encoded, try_encode}
use minlz.Encode.Compress.{Decodes}
use minlz.Encode.RoundTrip.{IsEncoded, IsTried, encode-IsEncoded, try_encode-IsTried}
use minlz.Encode.Append.{append_encoded-Decodes}

abbrev levels : Levels
levels = record { best = λ dst src. next (dst, 0) }

sevens : (n : ℕ) → All IsByte (replicate n 7)
sevens zero = tt
sevens (suc n) = (omega arith, sevens n)

abbrev source : List ℕ
source = replicate 600 7

size : length source ≡ 600
size = length-replicate {A = ℕ} 600 7

encode-IsEncoded_example : Ends (IsEncoded source) (encode levels [] source 2)
encode-IsEncoded_example =
    encode-IsEncoded levels [] source 2 (sevens 600) (omega (arith, size)) (inr refl)
      (inr (omega (arith, size)))

try_encode-IsTried_example : Ends (IsTried source) (try_encode levels [] source 1)
try_encode-IsTried_example =
    try_encode-IsTried levels [] source 1 (sevens 600) (omega (arith, size))
      (inl (refl, omega (arith, size))) (inr (omega (arith, size)))

append_encoded-Decodes_example :
    (block : List ℕ) × (append_encoded levels (5 ∷ []) [] source 1 ≡ next (inr ((5 ∷ []) ++ block)))
    × Decodes source block
append_encoded-Decodes_example =
    append_encoded-Decodes levels (5 ∷ []) [] source 1 (sevens 600) (omega (arith, size))
      (inl (refl, omega (arith, size))) (inr (omega (arith, size)))
