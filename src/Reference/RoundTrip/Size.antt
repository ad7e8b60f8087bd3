-- ===== src/Reference/RoundTrip/Size.antt =====
-- The size in front of a block: binary.AppendUvarint against the decoder's loop.
use minlz.Prelude.{
  ℕ, zero, suc, ◌+◌, ◌-◌, ◌*◌, ◌/◌, ◌%◌, ◌^◌, ◌≤◌, ◌<◌, ◌≡◌, sym, refl, ◌∙◌, ap, bit_or, arith,
}
use minlz.Prelude.{List, [], ◌∷◌, ◌++◌, append_assoc, length, All}
use minlz.Prelude.{ltb, ltb→lt, leb, if◌then◌else◌, Bool-cases, inl, inr}
use minlz.Prelude.Bits.{bit_or_low, bit_or_above}
use minlz.Bytes.{u8, IsByte}
use minlz.Reference.Reader.{ok}
use minlz.Reference.Decoder.{max_block_size}
use minlz.Reference.Header.{read_size}
use minlz.Reference.Encoder.{append_uvarint}
use native.Mathlib.Nat.{div-add-mod, pow-suc}
use native.Mathlib.Numerals.{towards_suc}

-- `byte(v) | 0x80`
pub more_bit : (x : ℕ) → x < 256 → bit_or x 128 ≡ x % 128 + 128
more_bit x h = elim (Bool-cases (ltb x 128)) [
  | inl a ↦ omega (arith, ltb→lt x 128 a, bit_or_low 7 1 x (ltb→lt x 128 a))
  | inr a ↦
      let e : x ≡ 1 * 2 ^ 7 + (x - 128) = ground arith in
      let f = bit_or_above 7 1 1 (x - 128) (omega arith) in
      let g : bit_or x 128 ≡ bit_or (1 * 2 ^ 7 + (x - 128)) (1 * 2 ^ 7) =
        ap (λ (t : ℕ). bit_or t 128) e in
      omega (arith, f, g, e)
]

-- The groups of seven bits of `n`, lowest first.
unfoldable pub uvarint : (rounds n : ℕ) → List ℕ
uvarint zero n = u8 n ∷ []
uvarint (suc k) n =
    let more = uvarint k (n / 2 ^ 7) in if leb 128 n then (n % 128 + 128) ∷ more else u8 n ∷ []

pub append_uvarint-uvarint :
    (k : ℕ) (dst : List ℕ) (n : ℕ) → append_uvarint k dst n ≡ dst ++ uvarint k n
unfolding append_uvarint uvarint
append_uvarint-uvarint zero dst n = refl
append_uvarint-uvarint (suc k) dst n =
    let b : List ℕ = bit_or (u8 n) 128 ∷ [] in
    ground (
      arith,
      more_bit (u8 n),
      append_uvarint-uvarint k (dst ++ b) (n / 2 ^ 7),
      append_assoc dst b (uvarint k (n / 2 ^ 7)),
    )

pub next_weight : (i : ℕ) → 128 * 2 ^ i ≡ 2 ^ (i + 7)
next_weight i = sym (simp towards_suc (omega arith))

-- A number weighs as much as its lowest group and the rest.
pub split_weight : (i n : ℕ) → n % 128 * 2 ^ i + n / 128 * 2 ^ (i + 7) ≡ n * 2 ^ i
split_weight i n =
    let high : n / 128 * (128 * 2 ^ i) ≡ n / 128 * 2 ^ (i + 7) = rw (next_weight i) in
    let all : (128 * (n / 128) + n % 128) * 2 ^ i ≡ n * 2 ^ i = rw div-add-mod in
    omega (arith, high, all)

-- One byte of the size, with the group `g` of seven bits.
read_size_last :
    (g i size : ℕ) (rest : List ℕ)
    → g < 128
    → i ≤ 63
    → size < 2 ^ i
    → size + g * 2 ^ i ≤ max_block_size
    → read_size i size (g ∷ rest) ≡ ok (size + g * 2 ^ i, rest)
unfolding read_size
read_size_last g i size rest p q r t =
    let a : g % 2 ^ 7 ≡ g = omega arith in
    let b : g * 2 ^ i % 2 ^ 64 ≡ g * 2 ^ i = omega arith in
    rw (a, b, bit_or_low i g size r) (ground arith)

read_size_more :
    (g i size : ℕ) (rest : List ℕ)
    → g < 128
    → i ≤ 63
    → size < 2 ^ i
    → size + g * 2 ^ i ≤ max_block_size
    → read_size i size ((g + 128) ∷ rest) ≡ read_size (i + 7) (size + g * 2 ^ i) rest
unfolding read_size
read_size_more g i size rest p q r t =
    let a : (g + 128) % 2 ^ 7 ≡ g = omega arith in
    let b : g * 2 ^ i % 2 ^ 64 ≡ g * 2 ^ i = omega arith in
    let c : g * 2 ^ i + size ≡ size + g * 2 ^ i = omega arith in
    rw (a, b, bit_or_low i g size r, c) (ground arith)

pub group_fits : (g i size : ℕ) → g < 128 → size < 2 ^ i → size + g * 2 ^ i < 2 ^ (i + 7)
group_fits g i size p q =
    let monotone : g * 2 ^ i ≤ 127 * 2 ^ i = grind arith in omega (arith, next_weight i, monotone)

-- `n` is what is still to be read, and it counts from bit `i` on.
read_size-uvarint_at :
    (k n i size : ℕ) (rest : List ℕ)
    → n < 2 ^ 7 * 128 ^ k
    → i + 7 * k ≤ 63
    → size < 2 ^ i
    → size + n * 2 ^ i ≤ max_block_size
    → read_size i size (uvarint k n ++ rest) ≡ ok (size + n * 2 ^ i, rest)
unfolding uvarint
read_size-uvarint_at zero n i size rest p q r t =
    let e : u8 n ≡ n = omega arith in
    rw e (read_size_last n i size rest (omega arith) (omega arith) r t)
read_size-uvarint_at (suc k) n i size rest p q r t = elim (Bool-cases (leb 128 n)) [
  | inr a ↦
      let e : u8 n ≡ n = ground arith in
      rw (a, e) (read_size_last n i size rest (ground arith) (omega arith) r t)
  | inl a ↦
      let split = split_weight i n in
      let value : size + n % 128 * 2 ^ i + n / 2 ^ 7 * 2 ^ (i + 7) ≡ size + n * 2 ^ i =
        omega (arith, split) in
      rw a (
        read_size_more (n % 128) i size (uvarint k (n / 2 ^ 7) ++ rest) (omega arith) (omega arith)
          r (omega (arith, split))
        ∙ read_size-uvarint_at k (n / 2 ^ 7) (i + 7) (size + n % 128 * 2 ^ i) rest
            (omega (arith, pow-suc 128 k)) (omega arith)
            (group_fits (n % 128) i size (omega arith) r) (rw value t)
        ∙ ap (λ (v : ℕ). ok (v, rest)) value)
]

-- The decoder reads the size that the encoder writes, for every block that it accepts.
pub read_size-uvarint :
    (n : ℕ) (rest : List ℕ)
    → n ≤ max_block_size
    → read_size 0 0 (uvarint 9 n ++ rest) ≡ ok (n, rest)
read_size-uvarint n rest h =
    let e : 0 + n * 2 ^ 0 ≡ n = omega arith in
    read_size-uvarint_at 9 n 0 0 rest (omega arith) (omega arith) (omega arith) (omega arith)
    ∙ ap (λ (v : ℕ). ok (v, rest)) e

-- For every size up to the largest of a block, the decoder reads back the size that
-- binary.AppendUvarint wrote, and nothing of what follows it.
pub read_size-append_uvarint :
    (n : ℕ) (rest : List ℕ)
    → n ≤ max_block_size
    → read_size 0 0 (append_uvarint 9 [] n ++ rest) ≡ ok (n, rest)
read_size-append_uvarint n rest h = rw (append_uvarint-uvarint 9 [] n) (read_size-uvarint n rest h)

pub uvarint-ne-nil : (k n : ℕ) → (b : ℕ) × (bs : List ℕ) × (uvarint k n ≡ b ∷ bs)
unfolding uvarint
uvarint-ne-nil zero n = (u8 n, [], refl)
uvarint-ne-nil (suc k) n = elim (Bool-cases (leb 128 n)) [
  | inl a ↦ (n % 128 + 128, uvarint k (n / 2 ^ 7), rw a)
  | inr a ↦ (u8 n, [], rw a)
]

pub length-uvarint : (k j n : ℕ) → n < 128 * 128 ^ j → length (uvarint k n) ≤ j + 1
unfolding uvarint
length-uvarint zero j n h = omega arith
length-uvarint (suc k) zero n h = ground arith
length-uvarint (suc k) (suc j) n h =
    let next : n / 2 ^ 7 < 128 * 128 ^ j = omega (arith, pow-suc 128 j) in
    ground (arith, length-uvarint k j (n / 2 ^ 7) next)

pub uvarint-IsByte : (k n : ℕ) → All IsByte (uvarint k n)
unfolding uvarint
uvarint-IsByte zero n = ground arith
uvarint-IsByte (suc k) n = elim (Bool-cases (leb 128 n)) [
  | inl a ↦ rw a (omega arith, uvarint-IsByte k (n / 2 ^ 7))
  | inr a ↦ rw a (omega arith, tt)
]
