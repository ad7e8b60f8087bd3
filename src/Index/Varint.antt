-- ===== src/Index/Varint.antt =====
-- The signed numbers of an index (index.go): binary.PutVarint, binary.AppendVarint and
-- binary.Varint. An int64 is kept as its pattern of 64 bits.
use minlz.Prelude.{ℕ, zero, suc, ◌+◌, ◌-◌, ◌*◌, ◌/◌, ◌%◌, ◌^◌, ◌≤◌, ◌<◌, ◌≡◌, refl, ◌∙◌, arith}
use minlz.Prelude.{List, [], ◌∷◌, ◌++◌, Option, none, some, length, true, false, ◌&&◌}
use minlz.Prelude.{ltb, leb, ◌==◌, if◌then◌else◌, Bool-cases, inl, inr}
use minlz.Prelude.Bits.{bit_or_low}
use minlz.Bytes.{u8}
use minlz.Block.Header.{uvarint}
use minlz.Reference.Encoder.{append_uvarint}
use minlz.Reference.RoundTrip.Size
use minlz.Reference.RoundTrip.Size.{append_uvarint-uvarint, next_weight, split_weight, group_fits}

-- `ux := uint64(x) << 1; if x < 0 { ux = ^ux }`
unfoldable pub zigzag : ℕ → ℕ
zigzag x = let ux = x * 2 % 2 ^ 64 in if ltb x (2 ^ 63) then ux else 2 ^ 64 - 1 - ux

-- `x := int64(ux >> 1); if ux&1 != 0 { x = ^x }`
unfoldable pub unzigzag : ℕ → ℕ
unzigzag ux = if ux % 2 == 0 then ux / 2 else 2 ^ 64 - 1 - ux / 2

unfoldable pub append_varint : (b : List ℕ) (x : ℕ) → List ℕ
unfolding zigzag
append_varint b x = append_uvarint 9 b (zigzag x)

-- The value and the number of bytes, or `none` for a number that is not positive.
unfoldable pub varint : List ℕ → Option (ℕ × ℕ)
unfolding unzigzag
varint b = elim (uvarint 0 0 b) [ none ↦ none | some (ux, n) ↦ some (unzigzag ux, n) ]

pub unzigzag-zigzag : (x : ℕ) → x < 2 ^ 64 → unzigzag (zigzag x) ≡ x
unfolding zigzag unzigzag
unzigzag-zigzag x h = ground arith

pub zigzag-fits : (x : ℕ) → zigzag x < 2 ^ 64
unfolding zigzag
zigzag-fits x = ground arith

uvarint_last :
    (g i x : ℕ) (rest : List ℕ)
    → g < 128
    → i ≤ 9
    → x < 2 ^ (i * 7)
    → x + g * 2 ^ (i * 7) < 2 ^ 64
    → (i == 9 && ltb 1 g) ≡ false
    → uvarint i x (g ∷ rest) ≡ some (x + g * 2 ^ (i * 7), i + 1)
unfolding uvarint
uvarint_last g i x rest p q r t l =
    let a : (i == 10) ≡ false = ground arith in
    let b : ltb g 128 ≡ true = ground arith in
    let c : g * 2 ^ (i * 7) % 2 ^ 64 ≡ g * 2 ^ (i * 7) = omega arith in
    let d : g * 2 ^ (i * 7) + x ≡ x + g * 2 ^ (i * 7) = omega arith in
    rw (a, b, l, c, bit_or_low (i * 7) g x r, d) refl

uvarint_more :
    (g i x : ℕ) (rest : List ℕ)
    → g < 128
    → i ≤ 9
    → x < 2 ^ (i * 7)
    → x + g * 2 ^ (i * 7) < 2 ^ 64
    → uvarint i x ((g + 128) ∷ rest) ≡ uvarint (i + 1) (x + g * 2 ^ (i * 7)) rest
unfolding uvarint
uvarint_more g i x rest p q r t =
    let a : (i == 10) ≡ false = ground arith in
    let b : ltb (g + 128) 128 ≡ false = ground arith in
    let e : (g + 128) % 2 ^ 7 ≡ g = omega arith in
    let c : g * 2 ^ (i * 7) % 2 ^ 64 ≡ g * 2 ^ (i * 7) = omega arith in
    let d : g * 2 ^ (i * 7) + x ≡ x + g * 2 ^ (i * 7) = omega arith in
    rw (a, b, e, c, bit_or_low (i * 7) g x r, d) refl

-- `n` is what is still to be read, in `k` groups and one.
uvarint-uvarint :
    (k n i x : ℕ) (rest : List ℕ)
    → k + i ≡ 9
    → x < 2 ^ (i * 7)
    → x + n * 2 ^ (i * 7) < 2 ^ 64
    → uvarint i x (Size.uvarint k n ++ rest)
      ≡ some (x + n * 2 ^ (i * 7), i + length (Size.uvarint k n))
unfolding Size.uvarint
uvarint-uvarint zero n i x rest e r t =
    let nine : i ≡ 9 = omega (arith, e) in
    let few : x + n * 2 ^ 63 < 2 ^ 64 = rw nine at t in
    let same : u8 n ≡ n = omega (arith, few) in
    let l : (i == 9 && ltb 1 n) ≡ false = ground (arith, few) in
    rw same (uvarint_last n i x rest (omega (arith, few)) (omega (arith, e)) r t l)
uvarint-uvarint (suc k) n i x rest e r t = elim (Bool-cases (leb 128 n)) [
  | inr a ↦
      let same : u8 n ≡ n = ground arith in
      rw (a, same)
        (uvarint_last n i x rest (ground arith) (omega (arith, e)) r t (ground (arith, e)))
  | inl a ↦
      let split = split_weight (i * 7) n in
      let weight : i * 7 + 7 ≡ (i + 1) * 7 = omega arith in
      let split' : n % 128 * 2 ^ (i * 7) + n / 128 * 2 ^ ((i + 1) * 7) ≡ n * 2 ^ (i * 7) =
        rw weight at split in
      let value : x + n % 128 * 2 ^ (i * 7) + n / 2 ^ 7 * 2 ^ ((i + 1) * 7) ≡ x + n * 2 ^ (i * 7) =
        omega (arith, split') in
      let longer : i + 1 + length (Size.uvarint k (n / 2 ^ 7))
          ≡ i + suc (length (Size.uvarint k (n / 2 ^ 7))) =
        omega arith in
      rw a (
        uvarint_more (n % 128) i x (Size.uvarint k (n / 2 ^ 7) ++ rest) (omega arith)
          (omega (arith, e)) r (omega (arith, split', t))
        ∙ uvarint-uvarint k (n / 2 ^ 7) (i + 1) (x + n % 128 * 2 ^ (i * 7)) rest (omega (arith, e))
            (rw weight at (group_fits (n % 128) (i * 7) x (omega arith) r)) (rw value t)
        ∙ rw (value, longer) refl)
]

pub varint-append_varint :
    (x : ℕ) (rest : List ℕ)
    → x < 2 ^ 64
    → varint (append_varint [] x ++ rest) ≡ some (x, length (append_varint [] x))
unfolding varint append_varint
varint-append_varint x rest h =
    let code = Size.uvarint 9 (zigzag x) in
    let e : uvarint 0 0 (code ++ rest) ≡ some (0 + zigzag x * 2 ^ (0 * 7), 0 + length code) =
      uvarint-uvarint 9 (zigzag x) 0 0 rest refl (omega arith) (omega (arith, zigzag-fits x)) in
    let a : 0 + zigzag x * 2 ^ (0 * 7) ≡ zigzag x = omega arith in
    let b : 0 + length code ≡ length code = omega arith in
    let read : uvarint 0 0 (code ++ rest) ≡ some (zigzag x, length code) = rw (a, b) at e in
    rw (append_uvarint-uvarint 9 [] (zigzag x), varint, read, unzigzag-zigzag x h) refl
