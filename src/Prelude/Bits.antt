-- ===== src/Prelude/Bits.antt =====
-- `|` of disjoint fields as a sum, at every width. The native operation means a recursion on
-- binary digits with fuel; the fuel is dropped first.
use Prim.Native.Nat.{ℕ, zero, suc, ◌+◌, ◌*◌, ◌/◌, ◌%◌, ◌^◌, ◌≤◌, ◌<◌, max, bit_or}
use Prim.Native.Nat.{digits, bit_or-bitwise}
use mathlib.Core.Path.{◌≡◌, refl}
use native.Mathlib.Nat.{le_refl, pow-suc}
use native.Mathlib.Omega.{arith}

abbrev or_digits : ℕ → ℕ → ℕ → ℕ
or_digits n a b = digits (λ y. y) max n a b

or_digits_fuel : (n m a b : ℕ) → a ≤ n → a ≤ m → or_digits n a b ≡ or_digits m a b
or_digits_fuel zero zero a b p q = refl
or_digits_fuel zero (suc m) zero b p q = refl
or_digits_fuel zero (suc m) (suc a) b p q = absurd (omega arith)
or_digits_fuel (suc n) zero zero b p q = refl
or_digits_fuel (suc n) zero (suc a) b p q = absurd (omega arith)
or_digits_fuel (suc n) (suc m) zero b p q = refl
or_digits_fuel (suc n) (suc m) (suc a) b p q =
    omega (arith, or_digits_fuel n m (suc a / 2) (b / 2) (omega arith) (omega arith))

pub zero-bit_or : (b : ℕ) → bit_or 0 b ≡ b
zero-bit_or b = bit_or-bitwise 0 b

-- The lowest digit apart.
pub bit_or_step : (x y : ℕ) → bit_or x y ≡ max (x % 2) (y % 2) + bit_or (x / 2) (y / 2) * 2
bit_or_step zero b = omega (arith, zero-bit_or (b / 2), zero-bit_or b)
bit_or_step (suc a) b = omega (
  arith,
  bit_or-bitwise (suc a) b,
  bit_or-bitwise (suc a / 2) (b / 2),
  or_digits_fuel a (suc a / 2) (suc a / 2) (b / 2) (omega arith) (omega arith),
)

bit_or-zero_fuel : (n a : ℕ) → a ≤ n → bit_or a 0 ≡ a
bit_or-zero_fuel n zero h = refl
bit_or-zero_fuel zero (suc a) h = absurd (omega arith)
bit_or-zero_fuel (suc n) (suc a) h =
    omega (arith, bit_or_step (suc a) 0, bit_or-zero_fuel n (suc a / 2) (omega arith))

pub bit_or-zero : (a : ℕ) → bit_or a 0 ≡ a
bit_or-zero a = bit_or-zero_fuel a a (le_refl a)

-- A field shifted once more is twice the field.
shift_once_more : (width field : ℕ) → 2 * (field * 2 ^ width) ≡ field * 2 ^ suc width
shift_once_more width field = let power = pow-suc 2 width in rw power (omega arith)

-- Two fields that share no bit: `r` fits below the `k` bits over which `q` is shifted.
pub bit_or_high : (k q r : ℕ) → r < 2 ^ k → bit_or (q * 2 ^ k) r ≡ q * 2 ^ k + r
bit_or_high zero q r fits = ground (arith, bit_or-zero q)
bit_or_high (suc k) q r fits = ground (
  arith,
  bit_or_step (q * 2 ^ suc k) r,
  shift_once_more k q,
  pow-suc 2 k,
  bit_or_high k q (r / 2) (omega (arith, pow-suc 2 k)),
)

pub bit_or_low : (k q r : ℕ) → r < 2 ^ k → bit_or r (q * 2 ^ k) ≡ q * 2 ^ k + r
bit_or_low zero q r fits = ground (arith, zero-bit_or q)
bit_or_low (suc k) q r fits = ground (
  arith,
  bit_or_step r (q * 2 ^ suc k),
  shift_once_more k q,
  pow-suc 2 k,
  bit_or_low k q (r / 2) (omega (arith, pow-suc 2 k)),
)

-- A field that goes in above the `k` low bits of the other side.
pub bit_or_above :
    (k a b r : ℕ) → r < 2 ^ k → bit_or (a * 2 ^ k + r) (b * 2 ^ k) ≡ bit_or a b * 2 ^ k + r
bit_or_above zero a b r fits = ground arith
bit_or_above (suc k) a b r fits = ground (
  arith,
  bit_or_step (a * 2 ^ suc k + r) (b * 2 ^ suc k),
  shift_once_more k a,
  shift_once_more k b,
  shift_once_more k (bit_or a b),
  pow-suc 2 k,
  bit_or_above k a b (r / 2) (omega (arith, pow-suc 2 k)),
)

le-bit_or_fuel : (n x y : ℕ) → x ≤ n → x ≤ bit_or x y
le-bit_or_fuel n zero y h = omega arith
le-bit_or_fuel zero (suc x) y h = absurd (omega arith)
le-bit_or_fuel (suc n) (suc x) y h =
    omega (arith, bit_or_step (suc x) y, le-bit_or_fuel n (suc x / 2) (y / 2) (omega arith))

pub le-bit_or : (x y : ℕ) → x ≤ bit_or x y
le-bit_or x y = le-bit_or_fuel x x y (le_refl x)
