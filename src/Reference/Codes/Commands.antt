-- ===== src/Reference/Codes/Commands.antt =====
-- Each emission of internal/reference/encoder.go, read back by the decoder's switch on the tag.
use minlz.Prelude.{ℕ, ◌+◌, ◌-◌, ◌≤◌, ◌<◌, ◌≡◌, ◌^◌, refl, arith, List, ◌++◌, length}
use minlz.Reference.Decoder.{Command, literals, copy}
use minlz.Reference.Returns.{Returns}
use minlz.Reference.Emit.{emit_literals, emit_copy2, emit_copy3, emit_copy_lits2}
use minlz.Reference.Codes.Literal.{Encodes, length_code, emit_literals-length_code}
use minlz.Reference.Codes.Literal.{length_code-literals, length_code-repeat}
use minlz.Reference.Codes.Copy.{copy2_code, copy2_code-Encodes, emit_copy2-code}
use minlz.Reference.Codes.Copy3.{copy3_code, copy3_code-Encodes, emit_copy3-code}
use minlz.Reference.Codes.Fused.{fused_code, fused_code-Encodes, emit_copy_lits2-code}

-- `after` is `dst` with one operation behind it, read as `c`, and the bytes `lits` behind that.
abbrev pub Appends : (last : ℕ) → Command → (lits dst after : List ℕ) → Type 0
Appends last c lits dst after =
    (code : List ℕ) × Encodes last c code × (after ≡ dst ++ (code ++ lits))

-- `after` is `dst` with two operations behind it: the first reads as `c` and has the literals
-- `lits`; the second repeats the offset `last` for `more` bytes.
abbrev pub AppendsRepeat : (last offset more : ℕ) → Command → (lits dst after : List ℕ) → Type 0
AppendsRepeat last offset more c lits dst after =
    (code again : List ℕ) × Encodes last c code
    × Encodes offset (copy 0 offset more) again
    × (after ≡ dst ++ (code ++ (lits ++ again)))

-- emitLiterals of 1 to 2^24 - 1 literals appends one operation, which the decoder reads as that
-- many literals, and the literals.
pub emit_literals-Appends :
    (last : ℕ) (dst lits : List ℕ)
    → 1 ≤ length lits
    → length lits < 2 ^ 24
    → Appends last (literals (length lits)) lits dst (emit_literals dst lits)
emit_literals-Appends last dst lits p q = (
  length_code 0 (length lits),
  length_code-literals last (length lits) p q,
  emit_literals-length_code dst lits p,
)

-- emitCopy2 with an offset from 64 to 65599 and a length from 4 to 2^24 - 1 returns, and what it
-- appends is read as a copy of that offset and length.
pub emit_copy2-Appends :
    (last : ℕ) (dst : List ℕ) (offset len : ℕ)
    → 64 ≤ offset
    → offset < 65600
    → 4 ≤ len
    → len < 2 ^ 24
    → Returns
        (λ after. (code : List ℕ) × Encodes last (copy 0 offset len) code × (after ≡ dst ++ code))
        (emit_copy2 dst offset len)
emit_copy2-Appends last dst offset len p q r s =
    rw (emit_copy2-code dst offset len r)
      (copy2_code offset len, copy2_code-Encodes last offset len p q r s, refl)

-- emitCopy3 with at most 3 literals, an offset from 65536 to 65536 + 2^21 - 1 and a length from 4
-- to 2^24 - 1 returns; it appends one operation, which is read as a copy of that offset and length
-- behind that many literals, and the literals.
pub emit_copy3-Appends :
    (last : ℕ) (dst : List ℕ) (offset len : ℕ) (lits : List ℕ)
    → 65536 ≤ offset
    → offset < 65536 + 2 ^ 21
    → length lits < 4
    → 4 ≤ len
    → len < 2 ^ 24
    → Returns
        (Appends last (copy (length lits) offset len) lits dst)
        (emit_copy3 dst offset len lits)
emit_copy3-Appends last dst offset len lits p q l r s =
    rw (emit_copy3-code dst offset len lits p q l r) (
      copy3_code (length lits) offset len,
      copy3_code-Encodes last (length lits) offset len l p q r s,
      refl,
    )

-- emitCopyLits2 with 1 to 4 literals, an offset from 64 to 65599 and a length from 12 to 2^24 - 1
-- appends a copy of 11 bytes behind the literals, and a repeat of the rest of the length.
pub emit_copy_lits2-AppendsRepeat :
    (last : ℕ) (dst lits : List ℕ) (offset len : ℕ)
    → 1 ≤ length lits
    → length lits ≤ 4
    → 64 ≤ offset
    → offset < 65600
    → 12 ≤ len
    → len < 2 ^ 24
    → AppendsRepeat last offset
        (len - 11)
        (copy (length lits) offset 11)
        lits
        dst
        (emit_copy_lits2 dst lits offset len)
emit_copy_lits2-AppendsRepeat last dst lits offset len p q r s t u = (
  fused_code (length lits) offset 11,
  length_code 4 (len - 11),
  fused_code-Encodes last (length lits) offset 11 p q r s (omega arith) (omega arith),
  length_code-repeat offset (len - 11) (omega arith) (omega arith),
  ground (arith, emit_copy_lits2-code dst lits offset len p q),
)
