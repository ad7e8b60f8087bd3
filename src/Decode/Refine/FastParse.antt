-- ===== src/Decode/Refine/FastParse.antt =====
-- The switch of the first loop of minLZDecodeGo, which tests no bound, against that of the second.
use minlz.Prelude.{ℕ, ◌+◌, ◌/◌, ◌%◌, ◌^◌, ◌<◌, ◌≡◌, refl, arith}
use minlz.Prelude.{List, All, length, get_elem?-lt}
use minlz.Prelude.{ltb, leb, ◌==◌, Bool-cases, inl, inr, false, if◌then◌else◌, le→ltb}
use minlz.Prelude.Slices.{All-get_elem?}
use minlz.Bytes.{IsByte, le24, le32, le24_lem, le32_lem}
use minlz.Decode.Machine.{next, load8, load16, load32}
use minlz.Decode.Checked.{
  checked_length, checked_literal, checked_copy1, checked_copy2, checked_copy3,
}
use minlz.Decode.Checked.{checked_parse}
use minlz.Decode.Fast.{fast_length, fast_literal, fast_copy1, fast_copy2, fast_copy3, fast_parse}

module _ (src : List ℕ) (bytes : All IsByte src) where
  pub IsByte-at : (s : ℕ) → s < length src → (a : ℕ) × (load8 src s ≡ next a) × IsByte a
  IsByte-at s h =
      let (a, e) = get_elem?-lt src s h in (a, rw (e, load8), All-get_elem? IsByte src s bytes e)

  fast_length_lem :
      (s t code from base : ℕ)
      → s + 3 < length src
      → s + 1 ≡ t
      → fast_length src s code from base ≡ checked_length src t code from base
  unfolding fast_length checked_length load16 load32
  fast_length_lem s t code from base h e =
      let (v, p, bv) = IsByte-at s (omega arith) in
      let (a, q, ba) = IsByte-at (s + 1) (omega arith) in
      let (b, r, bb) = IsByte-at (s + 2) (omega arith) in
      let (c, u, bc) = IsByte-at (s + 3) (omega arith) in
      let in1 : ltb (length src) (s + 2) ≡ false = le→ltb (length src) (s + 2) (omega arith) in
      let in2 : ltb (length src) (s + 3) ≡ false = le→ltb (length src) (s + 3) (omega arith) in
      let in3 : ltb (length src) (s + 4) ≡ false = le→ltb (length src) (s + 4) (omega arith) in
      let t1 : s + 1 + 1 ≡ s + 2 = omega arith in
      let t2 : s + 1 + 2 ≡ s + 3 = omega arith in
      let t3 : s + 1 + 3 ≡ s + 4 = omega arith in
      let top : le32 v a b c / 2 ^ 8 ≡ le24 a b c =
        omega (arith, le32_lem v a b c bv ba bb, le24_lem a b c ba bb) in
      rw (← e) (elim (Bool-cases (code == from)) [
        | inl k ↦ rw (k, t1, in1, q) (ground arith)
        | inr k ↦ rw k (elim (Bool-cases (code == from + 1)) [
          | inl l ↦ rw (l, t1, t2, in2, q, r) (ground arith)
          | inr l ↦ rw (l, t1, t2, t3, in3, p, q, r, u, top) (ground arith)
        ])
      ])

  fast_literal_lem :
      (s v offset : ℕ)
      → s + 11 < length src
      → fast_literal src s v offset ≡ checked_literal src s v offset
  unfolding fast_literal checked_literal
  fast_literal_lem s v offset h =
      rw (fast_length_lem s (s + 1) (v / 2 ^ 3) 29 30 (omega arith) refl)

  fast_copy1_lem : (s : ℕ) → s + 11 < length src → fast_copy1 src s ≡ checked_copy1 src s
  unfolding fast_copy1 checked_copy1
  fast_copy1_lem s h =
      let in2 : ltb (length src) (s + 2) ≡ false = le→ltb (length src) (s + 2) (omega arith) in
      let in3 : ltb (length src) (s + 3) ≡ false = le→ltb (length src) (s + 3) (omega arith) in
      rw (in2, in3)

  fast_copy2_at :
      (s v a b : ℕ)
      → s + 11 < length src
      → load8 src s ≡ next v
      → load8 src (s + 1) ≡ next a
      → load8 src (s + 2) ≡ next b
      → fast_copy2 src s ≡ checked_copy2 src s
  unfolding fast_copy2 checked_copy2 load16
  fast_copy2_at s v a b h p q r =
      let in3 : ltb (length src) (s + 3) ≡ false = le→ltb (length src) (s + 3) (omega arith) in
      let t1 : s + 1 + 1 ≡ s + 2 = omega arith in
      let length_eq =
        fast_length_lem (s + 2) (s + 3) (v / 2 ^ 2) 61 64 (omega arith) (omega arith) in
      rw (in3, p, q, t1, r, length_eq)

  fast_copy2_lem : (s : ℕ) → s + 11 < length src → fast_copy2 src s ≡ checked_copy2 src s
  fast_copy2_lem s h =
      let (v, p, _) = IsByte-at s (omega arith) in
      let (a, q, _) = IsByte-at (s + 1) (omega arith) in
      let (b, r, _) = IsByte-at (s + 2) (omega arith) in fast_copy2_at s v a b h p q r

  -- The two tests for an extended length of a copy3.
  fast_code :
      (s w : ℕ)
      → s + 11 < length src
      → (if ltb (w / 2 ^ 5 % 64) 61
          then next (w / 2 ^ 5 % 64 + 4, s + 4)
          else fast_length src (s + 3) (w / 2 ^ 5 % 64) 61 64)
        ≡ (if leb 61 (w / 2 ^ 5 % 64)
            then checked_length src (s + 4) (w / 2 ^ 5 % 64) 61 64
            else next (w / 2 ^ 5 % 64 + 4, s + 4))
  fast_code s w h =
      rw (fast_length_lem (s + 3) (s + 4) (w / 2 ^ 5 % 64) 61 64 (omega arith) (omega arith))
        (ground arith)

  fast_copy3_at :
      (s v a b c : ℕ)
      → s + 11 < length src
      → load8 src s ≡ next v
      → load8 src (s + 1) ≡ next a
      → load8 src (s + 2) ≡ next b
      → load8 src (s + 3) ≡ next c
      → fast_copy3 src s ≡ checked_copy3 src s
  unfolding fast_copy3 checked_copy3 load32
  fast_copy3_at s v a b c h p q r u =
      let in4 : ltb (length src) (s + 4) ≡ false = le→ltb (length src) (s + 4) (omega arith) in
      rw (in4, p, q, r, u, fast_code s (le32 v a b c) h)

  fast_copy3_lem : (s : ℕ) → s + 11 < length src → fast_copy3 src s ≡ checked_copy3 src s
  fast_copy3_lem s h =
      let (v, p, _) = IsByte-at s (omega arith) in
      let (a, q, _) = IsByte-at (s + 1) (omega arith) in
      let (b, r, _) = IsByte-at (s + 2) (omega arith) in
      let (c, u, _) = IsByte-at (s + 3) (omega arith) in fast_copy3_at s v a b c h p q r u

  -- Where twelve bytes are left, the switch without tests reads what the switch with tests reads.
  pub fast_parse-checked_parse :
      (s offset : ℕ) → s + 11 < length src → fast_parse src s offset ≡ checked_parse src s offset
  unfolding fast_parse checked_parse
  fast_parse-checked_parse s offset h =
      let (v, p, _) = IsByte-at s (omega arith) in
      rw (
        p,
        fast_literal_lem s v offset h,
        fast_copy1_lem s h,
        fast_copy2_lem s h,
        fast_copy3_lem s h,
      )
