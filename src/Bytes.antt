-- ===== src/Bytes.antt =====
-- Bytes and little-endian words: Go's conversions, shifts and `|` on fixed widths, and the loads
-- and stores of encoding/binary and unsafe_disabled.go as far as the codecs use them.
-- `x & (2^k - 1)` is written `x % 2^k`, and `x >> k` is written `x / 2^k`.
use minlz.Prelude.{ℕ, ◌+◌, ◌*◌, ◌/◌, ◌%◌, ◌^◌, ◌<◌, bit_or, ◌≡◌, arith, List, [], ◌∷◌}
use minlz.Prelude.Bits.{bit_or_low}

abbrev pub IsByte : ℕ → Type 0
IsByte b = b < 256

abbrev pub u8 : ℕ → ℕ
u8 n = n % 2 ^ 8

abbrev pub u16 : ℕ → ℕ
u16 n = n % 2 ^ 16

abbrev pub u32 : ℕ → ℕ
u32 n = n % 2 ^ 32

-- `uint32(a) | uint32(b)<<8`
unfoldable pub le16 : ℕ → ℕ → ℕ
le16 a b = bit_or a (b * 2 ^ 8)

-- `uint32(a) | uint32(b)<<8 | uint32(c)<<16`
unfoldable pub le24 : ℕ → ℕ → ℕ → ℕ
le24 a b c = bit_or (bit_or a (b * 2 ^ 8)) (c * 2 ^ 16)

-- `uint32(a) | uint32(b)<<8 | uint32(c)<<16 | uint32(d)<<24`
unfoldable pub le32 : ℕ → ℕ → ℕ → ℕ → ℕ
le32 a b c d = bit_or (bit_or (bit_or a (b * 2 ^ 8)) (c * 2 ^ 16)) (d * 2 ^ 24)

pub le16_lem : (a b : ℕ) → IsByte a → le16 a b ≡ a + 256 * b
unfolding le16
le16_lem a b h = omega (arith, bit_or_low 8 b a h)

pub le24_lem : (a b c : ℕ) → IsByte a → IsByte b → le24 a b c ≡ a + 256 * b + 65536 * c
unfolding le24
le24_lem a b c h k =
    rw (bit_or_low 8 b a h) (omega (arith, bit_or_low 16 c (b * 2 ^ 8 + a) (omega arith)))

pub le32_lem :
    (a b c d : ℕ)
    → IsByte a
    → IsByte b
    → IsByte c
    → le32 a b c d ≡ a + 256 * b + 65536 * c + 16777216 * d
unfolding le32
le32_lem a b c d h k l =
    rw (bit_or_low 8 b a h, bit_or_low 16 c (b * 2 ^ 8 + a) (omega arith))
      (omega (arith, bit_or_low 24 d (c * 2 ^ 16 + (b * 2 ^ 8 + a)) (omega arith)))

-- binary.LittleEndian.PutUint16
abbrev pub put16 : ℕ → List ℕ
put16 v = u8 v ∷ u8 (v / 2 ^ 8) ∷ []

-- The three low bytes of binary.LittleEndian.PutUint32.
abbrev pub put24 : ℕ → List ℕ
put24 v = u8 v ∷ u8 (v / 2 ^ 8) ∷ u8 (v / 2 ^ 16) ∷ []

-- binary.LittleEndian.PutUint32
abbrev pub put32 : ℕ → List ℕ
put32 v = u8 v ∷ u8 (v / 2 ^ 8) ∷ u8 (v / 2 ^ 16) ∷ u8 (v / 2 ^ 24) ∷ []

pub le16-put16 : (v : ℕ) → v < 2 ^ 16 → le16 (u8 v) (u8 (v / 2 ^ 8)) ≡ v
le16-put16 v h = rw (le16_lem (u8 v) (u8 (v / 2 ^ 8)) (omega arith)) (omega arith)

pub le24-put24 : (v : ℕ) → v < 2 ^ 24 → le24 (u8 v) (u8 (v / 2 ^ 8)) (u8 (v / 2 ^ 16)) ≡ v
le24-put24 v h =
    rw (le24_lem (u8 v) (u8 (v / 2 ^ 8)) (u8 (v / 2 ^ 16)) (omega arith) (omega arith))
      (omega arith)
