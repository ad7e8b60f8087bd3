-- ===== src/Reference/Codes/Octets.antt =====
-- The codes that the encoder emits consist of bytes.
use minlz.Prelude.{ℕ, ◌≤◌, All, arith}
use minlz.Bytes.{IsByte}
use minlz.Reference.Codes.Literal.{length_code}
use minlz.Reference.Codes.Copy.{copy1_code, copy2_code}
use minlz.Reference.Codes.Copy3.{copy3_code}
use minlz.Reference.Codes.Fused.{fused_code}

pub length_code-IsByte : (tag n : ℕ) → tag ≤ 7 → All IsByte (length_code tag n)
unfolding length_code
length_code-IsByte tag n p = ground arith

pub copy1_code-IsByte : (offset len : ℕ) → All IsByte (copy1_code offset len)
unfolding copy1_code
copy1_code-IsByte offset len = ground arith

pub copy2_code-IsByte : (offset len : ℕ) → All IsByte (copy2_code offset len)
unfolding copy2_code
copy2_code-IsByte offset len = ground arith

pub copy3_code-IsByte : (lits offset len : ℕ) → All IsByte (copy3_code lits offset len)
unfolding copy3_code
copy3_code-IsByte lits offset len = ground arith

pub fused_code-IsByte :
    (lits offset len : ℕ) → 1 ≤ lits → lits ≤ 4 → len ≤ 11 → All IsByte (fused_code lits offset len)
unfolding fused_code
fused_code-IsByte lits offset len p q r = ground arith
