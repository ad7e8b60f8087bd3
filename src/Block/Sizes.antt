-- ===== src/Block/Sizes.antt =====
-- The size of a block: binary.Uvarint, which isMinLZ calls, against the loop of DecodeBlock.
use minlz.Prelude.{ℕ, zero, suc, ◌+◌, ◌-◌, ◌*◌, ◌/◌, ◌%◌, ◌^◌, ◌≤◌, ◌≡◌, ◌∙◌, arith, bit_or}
use minlz.Prelude.{List, [], ◌∷◌, some, All, length, drop}
use minlz.Prelude.{ltb, ◌==◌, ◌&&◌, Bool-cases, inl, inr, true, false}
use minlz.Prelude.Bits.{le-bit_or}
use minlz.Bytes.{IsByte}
use minlz.Reference.Reader.{ok}
use minlz.Reference.Decoder.{max_block_size}
use minlz.Reference.Header.{read_size, too_large}
use minlz.Block.Header.{uvarint}

-- The groups that are read only add bits, and each takes a byte.
pub uvarint_bounds :
    (buf : List ℕ) (i x v n : ℕ)
    → uvarint i x buf ≡ some (v, n)
    → (x ≤ v) × (i + 1 ≤ n) × (n ≤ i + length buf)
unfolding uvarint
uvarint_bounds [] i x v n e = cc
uvarint_bounds (b ∷ buf) i x v n e =
    let x' = bit_or x (b % 2 ^ 7 * 2 ^ (i * 7) % 2 ^ 64) in
    ground (
      arith,
      le-bit_or x (b * 2 ^ (i * 7) % 2 ^ 64),
      le-bit_or x (b % 2 ^ 7 * 2 ^ (i * 7) % 2 ^ 64),
      uvarint_bounds buf (i + 1) x' v n,
    )

-- One byte of the varint: the last one, and one that is not.
uvarint_last :
    (b : ℕ) (buf : List ℕ) (i x v n : ℕ)
    → (i == 10) ≡ false
    → ltb b 128 ≡ true
    → (i == 9 && ltb 1 b) ≡ false
    → uvarint i x (b ∷ buf) ≡ some (v, n)
    → (bit_or x (b * 2 ^ (i * 7) % 2 ^ 64) ≡ v) × (i + 1 ≡ n)
unfolding uvarint
uvarint_last b buf i x v n a c d e = ground arith

uvarint_more :
    (b : ℕ) (buf : List ℕ) (i x : ℕ)
    → (i == 10) ≡ false
    → ltb b 128 ≡ false
    → uvarint (i + 1) (bit_or x (b % 2 ^ 7 * 2 ^ (i * 7) % 2 ^ 64)) buf ≡ uvarint i x (b ∷ buf)
unfolding uvarint
uvarint_more b buf i x a c = rw (a, c)

-- A size that fits a block, and that binary.Uvarint accepts, is the size that DecodeBlock reads.
pub uvarint-read_size :
    (buf : List ℕ) (i x v n : ℕ)
    → All IsByte buf
    → uvarint i x buf ≡ some (v, n)
    → v ≤ max_block_size
    → read_size (i * 7) x buf ≡ ok (v, drop (n - i) buf)
unfolding uvarint read_size
uvarint-read_size [] i x v n bytes e h = cc
uvarint-read_size (b ∷ buf) i x v n bytes e h = elim (Bool-cases (i == 10)) [
  | inl a ↦ absurd (ground arith)
  | inr a ↦
      let not_last : (i * 7 == 70) ≡ false = ground arith in
      elim (Bool-cases (ltb b 128)) [
        | inl c ↦
            let clear : (b / 2 ^ 7 % 2 == 0) ≡ true = ground arith in
            let low : b % 2 ^ 7 ≡ b = ground arith in
            elim (Bool-cases (i == 9 && ltb 1 b)) [
              | inl d ↦ absurd (ground arith)
              | inr d ↦
                  let y = bit_or x (b * 2 ^ (i * 7) % 2 ^ 64) in
                  let (same, all) = uvarint_last b buf i x v n a c d e in
                  let fits : too_large y ≡ false = ground (arith, same) in
                  let one : n - i ≡ suc zero = omega (arith, all) in
                  rw (not_last, clear, low, fits, one) (rw same)
            ]
        | inr c ↦
            let set : (b / 2 ^ 7 % 2 == 0) ≡ false = ground (arith, bytes.0) in
            let again : i * 7 + 7 ≡ (i + 1) * 7 = omega arith in
            let x' = bit_or x (b % 2 ^ 7 * 2 ^ (i * 7) % 2 ^ 64) in
            let rest : uvarint (i + 1) x' buf ≡ some (v, n) = uvarint_more b buf i x a c ∙ e in
            let (low, fewer, _) = uvarint_bounds buf (i + 1) x' v n rest in
            let fits : too_large x' ≡ false = ground (arith, low) in
            let one : n - i ≡ suc (n - (i + 1)) = omega (arith, fewer) in
            rw (not_last, set, again, fits, one)
              (uvarint-read_size buf (i + 1) x' v n (bytes.1) rest h)
      ]
]

read_size-shorter :
    (buf : List ℕ) (i x v : ℕ) (rest : List ℕ)
    → read_size i x buf ≡ ok (v, rest)
    → length rest + 1 ≤ length buf
unfolding read_size
read_size-shorter [] i x v rest e = ground arith
read_size-shorter (b ∷ buf) i x v rest e =
    ground (arith, read_size-shorter buf (i + 7) (bit_or x (b % 2 ^ 7 * 2 ^ i % 2 ^ 64)) v rest)

-- A size that DecodeBlock reads, in no more than nine bytes, is the one that binary.Uvarint reads.
pub read_size-uvarint :
    (buf : List ℕ) (i x v : ℕ) (rest : List ℕ)
    → All IsByte buf
    → read_size (i * 7) x buf ≡ ok (v, rest)
    → length buf + i ≤ length rest + 9
    → (n : ℕ) × (uvarint i x buf ≡ some (v, n)) × (i ≤ n) × (drop (n - i) buf ≡ rest)
unfolding uvarint read_size
read_size-uvarint [] i x v rest bytes e h = absurd (ground arith)
read_size-uvarint (b ∷ buf) i x v rest bytes e h =
    let x' = bit_or x (b % 2 ^ 7 * 2 ^ (i * 7) % 2 ^ 64) in
    let shorter = read_size-shorter (b ∷ buf) (i * 7) x v rest e in
    let early : (i == 10) ≡ false = ground arith in
    let early' : (i == 9) ≡ false = ground arith in
    let early'' : (i * 7 == 70) ≡ false = ground arith in
    elim (Bool-cases (too_large x')) [
      | inl a ↦ absurd (ground (arith, rw (early'', a) at e))
      | inr a ↦ elim (Bool-cases (ltb b 128)) [
        | inl c ↦
            let clear : (b / 2 ^ 7 % 2 == 0) ≡ true = ground arith in
            let low : b % 2 ^ 7 ≡ b = ground arith in
            let last : ok (x', buf) ≡ ok (v, rest) = rw (early'', a, clear) at e in
            let same : x' ≡ v = cc in
            let left : buf ≡ rest = cc in
            let one : i + 1 - i ≡ suc zero = omega arith in
            (i + 1, rw (early, c, early', rw low at same), omega arith, rw one left)
        | inr c ↦
            let set : (b / 2 ^ 7 % 2 == 0) ≡ false = ground (arith, bytes.0) in
            let again : i * 7 + 7 ≡ (i + 1) * 7 = omega arith in
            let next : read_size ((i + 1) * 7) x' buf ≡ ok (v, rest) =
              rw (early'', a, set, again) at e in
            let (n, f, g, k) = read_size-uvarint buf (i + 1) x' v rest bytes.1 next (omega arith) in
            let one : n - i ≡ suc (n - (i + 1)) = omega (arith, g) in
            (n, rw (early, c) f, omega (arith, g), rw one k)
      ]
    ]
