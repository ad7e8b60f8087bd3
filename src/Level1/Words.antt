-- ===== src/Level1/Words.antt =====
-- Words of 64 bits: their load, the hashes of encode_l1.go and encode_l2.go, and the number of
-- trailing zeros.
use minlz.Prelude.{ℕ, zero, suc, ◌+◌, ◌*◌, ◌/◌, ◌%◌, ◌^◌, ◌-◌, bit_or, List, ◌==◌, if◌then◌else◌}
use minlz.Bytes.{u32}
use minlz.Decode.Machine.{Outcome, next, ◌>>=◌, load32}

-- load64 of unsafe_disabled.go: `b[i] | b[i+1]<<8 | ... | b[i+7]<<56`, in two halves.
unfoldable pub load64 : List ℕ → ℕ → Outcome ℕ
unfolding load32
load64 b i = do lo ← load32 b i; hi ← load32 b (i + 4); next (bit_or lo (hi * 2 ^ 32))

abbrev pub u64 : ℕ → ℕ
u64 n = n % 2 ^ 64

-- hash5, of encode_l2.go
unfoldable pub hash5 : (u h : ℕ) → ℕ
hash5 u h = u32 (u64 (u64 (u * 2 ^ (64 - 40)) * 889523592379) / 2 ^ ((64 - h) % 64))

-- hash6
unfoldable pub hash6 : (u h : ℕ) → ℕ
hash6 u h = u32 (u64 (u64 (u * 2 ^ (64 - 48)) * 227718039650203) / 2 ^ ((64 - h) % 64))

-- The zeros below the lowest one among the `width` lowest bits.
unfoldable pub trailing_zeros : (width n : ℕ) → ℕ
trailing_zeros zero n = 0
trailing_zeros (suc w) n = let more = trailing_zeros w (n / 2) in if n % 2 == 1 then 0 else suc more

-- bits.TrailingZeros64
abbrev pub trailing_zeros64 : ℕ → ℕ
trailing_zeros64 n = trailing_zeros 64 n
