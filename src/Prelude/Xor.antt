-- ===== src/Prelude/Xor.antt =====
-- `^` by its binary digits, lowest first.
use Prim.Native.Nat.{ℕ, zero, suc, ◌+◌, ◌*◌, ◌/◌, ◌%◌, ◌≤◌, ◌<◌}
use Prim.Native.Nat.{bit_xor, digits, differ, bit_xor-bitwise}
use mathlib.Core.Path.{◌≡◌, refl}
use native.Mathlib.Nat.{le_refl}
use native.Mathlib.Omega.{arith}
use minlz.Prelude.Tests.{if◌then◌else◌, ◌==◌}

abbrev xor_digits : ℕ → ℕ → ℕ → ℕ
xor_digits n a b = digits (λ y. y) differ n a b

xor_digits_fuel : (n m a b : ℕ) → a ≤ n → a ≤ m → xor_digits n a b ≡ xor_digits m a b
xor_digits_fuel zero zero a b p q = refl
xor_digits_fuel zero (suc m) zero b p q = refl
xor_digits_fuel zero (suc m) (suc a) b p q = absurd (omega arith)
xor_digits_fuel (suc n) zero zero b p q = refl
xor_digits_fuel (suc n) zero (suc a) b p q = absurd (omega arith)
xor_digits_fuel (suc n) (suc m) zero b p q = refl
xor_digits_fuel (suc n) (suc m) (suc a) b p q =
    omega (arith, xor_digits_fuel n m (suc a / 2) (b / 2) (omega arith) (omega arith))

differ_lem : (a b : ℕ) → a < 2 → b < 2 → differ a b ≡ (if a == b then 0 else 1)
differ_lem zero zero h k = refl
differ_lem zero (suc zero) h k = refl
differ_lem zero (suc (suc b)) h k = absurd (omega arith)
differ_lem (suc zero) zero h k = refl
differ_lem (suc zero) (suc zero) h k = refl
differ_lem (suc zero) (suc (suc b)) h k = absurd (omega arith)
differ_lem (suc (suc a)) b h k = absurd (omega arith)

zero-bit_xor : (b : ℕ) → bit_xor 0 b ≡ b
zero-bit_xor b = bit_xor-bitwise 0 b

-- The lowest digit apart.
pub bit_xor_step :
    (x y : ℕ) → bit_xor x y ≡ (if x % 2 == y % 2 then 0 else 1) + bit_xor (x / 2) (y / 2) * 2
bit_xor_step zero b = ground (arith, zero-bit_xor (b / 2), zero-bit_xor b)
bit_xor_step (suc a) b =
    let low = differ_lem (suc a % 2) (b % 2) (omega arith) (omega arith) in
    ground (
      arith,
      low,
      bit_xor-bitwise (suc a) b,
      bit_xor-bitwise (suc a / 2) (b / 2),
      xor_digits_fuel a (suc a / 2) (suc a / 2) (b / 2) (omega arith) (omega arith),
    )

bit_xor_self_fuel : (n x : ℕ) → x ≤ n → bit_xor x x ≡ 0
bit_xor_self_fuel n zero h = zero-bit_xor 0
bit_xor_self_fuel zero (suc x) h = absurd (omega arith)
bit_xor_self_fuel (suc n) (suc x) h =
    ground (arith, bit_xor_step (suc x) (suc x), bit_xor_self_fuel n (suc x / 2) (omega arith))

pub bit_xor_self : (x : ℕ) → bit_xor x x ≡ 0
bit_xor_self x = bit_xor_self_fuel x x (le_refl x)
