-- ===== src/Reference/Codes/Fused.antt =====
-- emitCopyLits2 against the tag 3 of the decoder, with bit 2 clear.
use minlz.Prelude.{ℕ, ◌+◌, ◌-◌, ◌*◌, ◌^◌, ◌≤◌, ◌<◌, ◌≡◌, arith}
use minlz.Prelude.{List, ◌∷◌, ◌++◌, append_assoc, length, if◌then◌else◌}
use minlz.Prelude.{leb}
use minlz.Prelude.Bits.{bit_or_high, bit_or_low, bit_or_above}
use minlz.Bytes.{u8, put16, le16-put16}
use minlz.Reference.Decoder.{copy, read_command}
use minlz.Reference.Emit.{fused_tag, tag_length}
use minlz.Reference.Emit.{emit_copy_lits2}
use minlz.Reference.Codes.Literal.{Encodes, length_code, emit_repeat-length_code}

-- The tag of a fused copy2.
fused_tag_sum : (x l : ℕ) → x < 8 → 1 ≤ l → l ≤ 4 → fused_tag x l ≡ x * 32 + (l - 1) * 8 + 3
fused_tag_sum x l p q r =
    let a : u8 (x * 2 ^ 5) ≡ x * 2 ^ 2 * 2 ^ 3 = omega arith in
    let b : tag_length (l - 1) ≡ (l - 1) * 2 ^ 3 = omega arith in
    rw
      (
        a,
        b,
        bit_or_low 3 (x * 2 ^ 2) 3 (omega arith),
        bit_or_above 3 (x * 2 ^ 2) (l - 1) 3 (omega arith),
        bit_or_high 2 x (l - 1) (omega arith),
      )
      (omega arith)

-- The header of a copy2 of 4 to 11 bytes behind 1 to 4 literals.
unfoldable pub fused_code : (lits offset len : ℕ) → List ℕ
fused_code lits offset len = ((len - 4) * 32 + (lits - 1) * 8 + 3) ∷ put16 (offset - 64)

pub fused_code-Encodes :
    (last lits offset len : ℕ)
    → 1 ≤ lits
    → lits ≤ 4
    → 64 ≤ offset
    → offset < 65600
    → 4 ≤ len
    → len ≤ 11
    → Encodes last (copy lits offset len) (fused_code lits offset len)
unfolding fused_code read_command
fused_code-Encodes last lits offset len p q r s h k rest = ground (arith, le16-put16 (offset - 64))

-- A longer copy goes on as a repeat.
pub emit_copy_lits2-code :
    (dst lits : List ℕ) (offset len : ℕ)
    → 1 ≤ length lits
    → length lits ≤ 4
    → 4 ≤ len
    → emit_copy_lits2 dst lits offset len ≡ (
        if leb len 11
        then dst ++ (fused_code (length lits) offset len ++ lits)
        else dst ++ (fused_code (length lits) offset 11 ++ (lits ++ length_code 4 (len - 11))))
unfolding emit_copy_lits2 fused_code
emit_copy_lits2-code dst lits offset len p q h =
    let l = length lits in
    let short = fused_tag 7 l ∷ put16 (offset - 64) in
    let exact = fused_tag (len - 4) l ∷ put16 (offset - 64) in
    ground (
      arith,
      fused_tag_sum 7 l,
      fused_tag_sum (len - 4) l,
      append_assoc dst short lits,
      append_assoc dst exact lits,
      append_assoc dst (short ++ lits) (length_code 4 (len - 11)),
      append_assoc short lits (length_code 4 (len - 11)),
      emit_repeat-length_code ((dst ++ short) ++ lits) (len - 4 - 7),
    )

pub length-fused_code : (lits offset len : ℕ) → length (fused_code lits offset len) ≤ 3
unfolding fused_code
length-fused_code lits offset len = omega arith
