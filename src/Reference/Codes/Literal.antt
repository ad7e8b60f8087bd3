-- ===== src/Reference/Codes/Literal.antt =====
-- emitLiterals and emitRepeat against the tags 0 of the decoder.
use minlz.Prelude.{ℕ, ◌+◌, ◌-◌, ◌*◌, ◌^◌, ◌≤◌, ◌<◌, ◌≡◌, bit_or, arith}
use minlz.Prelude.{List, [], ◌∷◌, ◌++◌, append_assoc, length, if◌then◌else◌}
use minlz.Prelude.{ltb}
use minlz.Prelude.Bits.{bit_or_high, zero-bit_or}
use minlz.Bytes.{u8, put16, put24, le16-put16, le24-put24}
use minlz.Reference.Reader.{Result, ok, stuck}
use minlz.Reference.Decoder.{Command, literals, copy, read_command}
use minlz.Reference.Emit.{tag_length, emit_literals, emit_repeat}

-- The first operation of `bs`, tag included, when the offset to repeat is `offset`.
abbrev pub read_bytes : (offset : ℕ) → List ℕ → Result (Command × List ℕ)
read_bytes offset [] = stuck
read_bytes offset (b ∷ bs) = read_command b offset bs

-- `bs` is read as the command `c`, whatever follows.
abbrev pub Encodes : (offset : ℕ) → Command → List ℕ → Type 0
Encodes offset c bs = (rest : List ℕ) → read_bytes offset (bs ++ rest) ≡ ok (c, rest)

literal_tag : (x : ℕ) → x < 32 → bit_or 0 (tag_length x) ≡ x * 8
literal_tag x h = rw zero-bit_or (omega arith)

repeat_tag : (x : ℕ) → x < 32 → bit_or (tag_length x) 4 ≡ x * 8 + 4
repeat_tag x h =
    let e : tag_length x ≡ x * 2 ^ 3 = omega arith in rw (e, bit_or_high 3 x 4 (omega arith))

-- A length `n` from 1 on with the low bits `tag`, in 1 to 4 bytes.
unfoldable pub length_code : (tag n : ℕ) → List ℕ
length_code tag n =
    if ltb n 30
    then ((n - 1) * 8 + tag) ∷ []
    else if ltb (n - 30) 256
    then (232 + tag) ∷ u8 (n - 30) ∷ []
    else if ltb (n - 30) 65536
    then (240 + tag) ∷ put16 (n - 30)
    else (248 + tag) ∷ put24 (n - 30)

-- emitLiterals writes the code of the length, then the literals.
pub emit_literals-length_code :
    (dst lits : List ℕ)
    → 1 ≤ length lits
    → emit_literals dst lits ≡ dst ++ (length_code 0 (length lits) ++ lits)
unfolding emit_literals length_code
emit_literals-length_code dst lits p =
    let n = length lits in
    ground (
      arith,
      literal_tag (n - 1),
      append_assoc dst (bit_or 0 (tag_length (n - 1)) ∷ []) lits,
      append_assoc dst (bit_or 0 (tag_length 29) ∷ u8 (n - 30) ∷ []) lits,
      append_assoc dst (bit_or 0 (tag_length 30) ∷ put16 (n - 30)) lits,
      append_assoc dst (bit_or 0 (tag_length 31) ∷ put24 (n - 30)) lits,
    )

pub emit_repeat-length_code :
    (dst : List ℕ) (n : ℕ) → 1 ≤ n → emit_repeat dst n ≡ dst ++ length_code 4 n
unfolding emit_repeat length_code
emit_repeat-length_code dst n p = ground (arith, repeat_tag (n - 1))

pub length_code-literals :
    (offset n : ℕ) → 1 ≤ n → n < 2 ^ 24 → Encodes offset (literals n) (length_code 0 n)
unfolding length_code read_command
length_code-literals offset n p q rest = ground (arith, le16-put16 (n - 30), le24-put24 (n - 30))

pub length_code-repeat :
    (offset n : ℕ) → 1 ≤ n → n < 2 ^ 24 → Encodes offset (copy 0 offset n) (length_code 4 n)
unfolding length_code read_command
length_code-repeat offset n p q rest = ground (arith, le16-put16 (n - 30), le24-put24 (n - 30))

pub length-length_code :
    (tag n : ℕ) → (1 ≤ length (length_code tag n)) × (length (length_code tag n) ≤ 4)
unfolding length_code
length-length_code tag n = ground arith
