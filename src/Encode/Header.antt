-- ===== src/Encode/Header.antt =====
-- The header that Encode writes to its buffer.
use minlz.Prelude.{ℕ, zero, suc, ◌+◌, ◌/◌, ◌%◌, ◌^◌, ◌≤◌, ◌<◌, ◌≡◌, refl, ◌∙◌, ap, arith}
use minlz.Prelude.{List, [], ◌∷◌, ◌++◌, append_assoc, length, set, take}
use minlz.Prelude.{bit_or, leb, ltb, false, Bool-cases, inl, inr}
use minlz.Prelude.Slices.{take-set, length-set}
use minlz.Bytes.{u8}
use minlz.Decode.Machine.{next}
use minlz.Reference.RoundTrip.Size.{uvarint, more_bit}
use minlz.Emit.Buffer.{store8, on_tail}
use minlz.Encode.Entry.{put_uvarint, put_header}

-- The bytes of the size, written behind the first `i`.
pub record IsPut (buf : List ℕ) (i : ℕ) (code : List ℕ) (r : List ℕ × ℕ) : Type 0 where
  pub count : r.1 ≡ i + length code
  pub size : length r.0 ≡ length buf
  pub front : take r.1 r.0 ≡ take i buf ++ code

store8_lem : (b : List ℕ) (i v : ℕ) → i < length b → store8 b i v ≡ next (set b i v)
store8_lem b i v h = let e : leb (length b) i ≡ false = ground arith in rw e refl

last-IsPut : (buf : List ℕ) (i v : ℕ) → i < length buf → IsPut buf i (v ∷ []) (set buf i v, i + 1)
last-IsPut buf i v h = record {
  count = omega arith;
  size = length-set buf i v;
  front = take-set i buf v h;
}

more-IsPut :
    (buf : List ℕ) (i v : ℕ) (code : List ℕ) (r : List ℕ × ℕ)
    → i < length buf
    → IsPut (set buf i v) (i + 1) code r
    → IsPut buf i (v ∷ code) r
more-IsPut buf i v code (out, n) h p = record {
  count = omega (arith, p.count);
  size = p.size ∙ length-set buf i v;
  front =
      p.front
      ∙ ap (λ (xs : List ℕ). xs ++ code) (take-set i buf v h)
      ∙ append_assoc (take i buf) (v ∷ []) code;
}

pub put_uvarint-IsPut :
    (k : ℕ) (buf : List ℕ) (i x : ℕ)
    → i + length (uvarint k x) ≤ length buf
    → (r : List ℕ × ℕ) × (put_uvarint k buf i x ≡ next r) × IsPut buf i (uvarint k x) r
unfolding put_uvarint uvarint
put_uvarint-IsPut zero buf i x h = (
  (set buf i (u8 x), i + 1),
  rw (store8_lem buf i (u8 x) (omega arith)) refl,
  last-IsPut buf i (u8 x) (omega arith),
)
put_uvarint-IsPut (suc k) buf i x h = elim (Bool-cases (leb 128 x)) [
  | inr a ↦
      let room : i + 1 ≤ length buf = rw a at h in
      rw a (
        (set buf i (u8 x), i + 1),
        rw (store8_lem buf i (u8 x) (omega arith)) refl,
        last-IsPut buf i (u8 x) (omega arith),
      )
  | inl a ↦
      let v = x % 128 + 128 in
      let low : bit_or (u8 x) 128 ≡ v = omega (arith, more_bit (u8 x) (omega arith)) in
      let room : i + suc (length (uvarint k (x / 2 ^ 7))) ≤ length buf = rw a at h in
      let (r, e, p) =
        put_uvarint-IsPut k (set buf i v) (i + 1) (x / 2 ^ 7) (omega (arith, length-set buf i v)) in
      rw (a, low, store8_lem buf i v (omega arith))
        (r, e, more-IsPut buf i v (uvarint k (x / 2 ^ 7)) r (omega arith) p)
]

-- The whole header, at the start of a buffer with room for it.
pub put_header_lem :
    (dst : List ℕ) (n : ℕ)
    → 1 + length (uvarint 9 n) ≤ length dst
    → (out : List ℕ) × (put_header dst n ≡ next (out, 1 + length (uvarint 9 n)))
      × (take (1 + length (uvarint 9 n)) out ≡ 0 ∷ uvarint 9 n)
      × (length out ≡ length dst)
unfolding put_header on_tail
put_header_lem (b ∷ dst) n h =
    let (r, e, p) = put_uvarint-IsPut 9 dst 0 n (omega arith) in
    let count : r.1 ≡ length (uvarint 9 n) = omega (arith, p.count) in
    let one : 1 + length (uvarint 9 n) ≡ suc (length (uvarint 9 n)) = omega arith in
    let filled : leb (suc (length dst)) 0 ≡ false = ground arith in
    let reached : ltb (suc (length dst)) 1 ≡ false = ground arith in
    (
      0 ∷ r.0,
      rw (filled, reached, e, count) refl,
      rw one (ap (λ (xs : List ℕ). 0 ∷ xs) (rw count at p.front)),
      ap suc p.size,
    )
put_header_lem [] n h = absurd (omega arith)
