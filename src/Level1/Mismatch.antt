-- ===== src/Level1/Mismatch.antt =====
-- `bits.TrailingZeros64(a ^ b) >> 3` is the number of low bytes on which two words agree.
use minlz.Prelude.{
  ℕ, zero, suc, ◌+◌, ◌*◌, ◌/◌, ◌%◌, ◌^◌, ◌≤◌, ◌<◌, ◌≡◌, ◌≢◌, refl, sym, ◌∙◌, ap, arith, bit_xor,
}
use minlz.Prelude.{◌==◌, if◌then◌else◌, Bool-cases, inl, inr, ==_iff}
use minlz.Prelude.Xor.{bit_xor_step, bit_xor_self}
use native.Mathlib.Nat.{pow-suc}
use native.Mathlib.Decide.{ℕ_discrete}
use minlz.Level1.Words.{trailing_zeros}

-- The equal bits, and the equal bytes, at the low end.
abbrev same_bits : (width x y : ℕ) → ℕ
same_bits zero x y = 0
same_bits (suc w) x y =
    let more = same_bits w (x / 2) (y / 2) in if x % 2 == y % 2 then suc more else 0

abbrev pub same_bytes : (width x y : ℕ) → ℕ
same_bytes zero x y = 0
same_bytes (suc w) x y =
    let more = same_bytes w (x / 256) (y / 256) in if x % 256 == y % 256 then suc more else 0

trailing_zeros-bit_xor : (w x y : ℕ) → trailing_zeros w (bit_xor x y) ≡ same_bits w x y
unfolding trailing_zeros
trailing_zeros-bit_xor zero x y = refl
trailing_zeros-bit_xor (suc w) x y =
    let step = bit_xor_step x y in
    let ih = trailing_zeros-bit_xor w (x / 2) (y / 2) in
    elim (Bool-cases (x % 2 == y % 2)) [
      | inl e ↦
          let half : bit_xor x y / 2 ≡ bit_xor (x / 2) (y / 2) = ground arith in
          let even : bit_xor x y % 2 ≡ 0 = ground arith in rw (e, even, half, ih) refl
      | inr e ↦ let odd : bit_xor x y % 2 ≡ 1 = ground arith in rw (e, odd) refl
    ]

-- A group of bits that agree is counted, and one that does not ends the count.
same_2 : (w x y : ℕ) → x % 4 ≡ y % 4 → same_bits (suc (suc w)) x y ≡ 2 + same_bits w (x / 4) (y / 4)
same_2 w x y e =
    let p : x / 2 / 2 ≡ x / 4 = omega arith in
    let q : y / 2 / 2 ≡ y / 4 = omega arith in rw (p, q) (ground arith)

differ_2 : (w x y : ℕ) → x % 4 ≢ y % 4 → same_bits (suc (suc w)) x y < 2
differ_2 w x y e = ground arith

same_4 :
    (w x y : ℕ)
    → x % 16 ≡ y % 16
    → same_bits (suc (suc (suc (suc w)))) x y ≡ 4 + same_bits w (x / 16) (y / 16)
same_4 w x y e =
    let p : x / 4 / 4 ≡ x / 16 = omega arith in
    let q : y / 4 / 4 ≡ y / 16 = omega arith in
    omega (
      arith,
      same_2 (suc (suc w)) x y (omega arith),
      rw (p, q) at (same_2 w (x / 4) (y / 4) (omega arith)),
    )

differ_4 : (w x y : ℕ) → x % 16 ≢ y % 16 → same_bits (suc (suc (suc (suc w)))) x y < 4
differ_4 w x y e = elim (ℕ_discrete (x % 4) (y % 4)) [
  | no h ↦ omega (arith, differ_2 (suc (suc w)) x y h)
  | yes h ↦
      omega (arith, same_2 (suc (suc w)) x y h, differ_2 w (x / 4) (y / 4) (λ g. e (omega arith)))
]

same_8 :
    (w x y : ℕ)
    → x % 256 ≡ y % 256
    → same_bits (suc (suc (suc (suc (suc (suc (suc (suc w)))))))) x y
      ≡ 8 + same_bits w (x / 256) (y / 256)
same_8 w x y e =
    let p : x / 16 / 16 ≡ x / 256 = omega arith in
    let q : y / 16 / 16 ≡ y / 256 = omega arith in
    omega (
      arith,
      same_4 (suc (suc (suc (suc w)))) x y (omega arith),
      rw (p, q) at (same_4 w (x / 16) (y / 16) (omega arith)),
    )

differ_8 :
    (w x y : ℕ)
    → x % 256 ≢ y % 256
    → same_bits (suc (suc (suc (suc (suc (suc (suc (suc w)))))))) x y < 8
differ_8 w x y e = elim (ℕ_discrete (x % 16) (y % 16)) [
  | no h ↦ omega (arith, differ_4 (suc (suc (suc (suc w)))) x y h)
  | yes h ↦ omega (
    arith,
    same_4 (suc (suc (suc (suc w)))) x y h,
    differ_4 w (x / 16) (y / 16) (λ g. e (omega arith)),
  )
]

eight : (n : ℕ) → suc n * 8 ≡ suc (suc (suc (suc (suc (suc (suc (suc (n * 8))))))))
eight n = omega arith

same_bits-same_bytes : (n x y : ℕ) → same_bits (n * 8) x y / 8 ≡ same_bytes n x y
same_bits-same_bytes zero x y = refl
same_bits-same_bytes (suc n) x y =
    let ih = same_bits-same_bytes n (x / 256) (y / 256) in
    rw (eight n) (elim (Bool-cases (x % 256 == y % 256)) [
      | inl e ↦ rw e (omega (arith, ih, same_8 (n * 8) x y ((==_iff _ _).0 e)))
      | inr e ↦ rw e (omega (arith, differ_8 (n * 8) x y (ground arith)))
    ])

-- On two words of n bytes, the count of trailing zeros of their exclusive or, in bytes, is the
-- number of low bytes on which they agree.
pub trailing_zeros-same_bytes :
    (n x y : ℕ) → trailing_zeros (n * 8) (bit_xor x y) / 8 ≡ same_bytes n x y
trailing_zeros-same_bytes n x y =
    rw (trailing_zeros-bit_xor (n * 8) x y) (same_bits-same_bytes n x y)

-- Words with all bytes the same are the same, and have no bit in their exclusive or.
pub same_bytes-all : (n x y : ℕ) → x < 256 ^ n → y < 256 ^ n → n ≤ same_bytes n x y → x ≡ y
same_bytes-all zero x y p q h = omega arith
same_bytes-all (suc n) x y p q h =
    let ih =
      same_bytes-all n (x / 256) (y / 256) (omega (arith, pow-suc 256 n))
        (omega (arith, pow-suc 256 n)) in
    ground (arith, ih)

pub xor_same : (x y : ℕ) → x ≡ y → bit_xor x y ≡ 0
xor_same x y e = rw e (bit_xor_self y)

all_zeros : trailing_zeros 64 0 / 8 ≡ 8
unfolding trailing_zeros
all_zeros = refl

pub no_difference : (x y : ℕ) → bit_xor x y ≡ 0 → same_bytes 8 x y ≡ 8
no_difference x y e =
    sym (trailing_zeros-same_bytes 8 x y) ∙ ap (λ (d : ℕ). trailing_zeros 64 d / 8) e ∙ all_zeros
