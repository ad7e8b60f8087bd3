-- ===== src/Decode/Refine/Parse.antt =====
-- The switch of the second loop of minLZDecodeGo against the switch of the reference decoder.
use minlz.Prelude.{ℕ, ◌+◌, ◌*◌, ◌/◌, ◌%◌, ◌^◌, ◌≤◌, ◌<◌, ◌≡◌, refl, arith, bit_or}
use minlz.Prelude.{List, some, All, length, get_elem?, drop, length-drop}
use minlz.Prelude.{ltb, leb, ◌==◌, if◌then◌else◌, Bool-cases, inl, inr, ltb→le, ltb→lt, true, false}
use minlz.Prelude.Bits.{bit_or_low}
use minlz.Prelude.Slices.{All-get_elem?, drop-suc}
use minlz.Bytes.{IsByte, le16, le24, le32, le16_lem, le24_lem, le32_lem}
use minlz.Reference.Reader.{
  Error, Result, ok, err, panic, stuck, ◌>>=◌, require, read_one, read_two, read_three,
}
use minlz.Reference.Reader
use minlz.Reference.Decoder.{extended}
use minlz.Reference.Decoder.{read_fused, read_copy3, read_command}
use minlz.Decode.Machine.{Outcome, next, corrupt, load8, load16, load32, Parsed}
use minlz.Decode.Machine
use minlz.Decode.Checked.{checked_length, checked_copy3}
use minlz.Decode.Checked.{checked_parse}
use minlz.Decode.Refine.Windows.{SameLength, checked_length-SameLength, read_two-drop}
use minlz.Decode.Refine.Windows.{read_three-drop, read_two-past, read_three-past}
use minlz.Decode.Refine.SameParse.{SameParse, SameParse-length}
use minlz.Decode.Refine.ParseCopies.{literal_SameParse, copy1_SameParse, copy2_SameParse}

module _ (src : List ℕ) (bytes : All IsByte src) where
  -- Four bytes of a copy3 or a fused copy2, as the second loop loads them.
  word_fields :
      (v a b c : ℕ)
      → IsByte v
      → IsByte a
      → IsByte b
      → (le32 v a b c / 2 ^ 2 % 2 ≡ v / 2 ^ 2 % 2)
        × (le32 v a b c / 2 ^ 3 % 4 ≡ v / 2 ^ 2 / 2 % 4)
        × (le32 v a b c / 2 ^ 8 % 65536 ≡ le16 a b)
        × (le32 v a b c / 2 ^ 5 % 8 ≡ v / 2 ^ 2 / 2 ^ 3)
        × (le32 v a b c / 2 ^ 2 ≡ bit_or (v / 2 ^ 2) (le24 a b c * 2 ^ 6))
  word_fields v a b c p q r =
      let whole = le32_lem v a b c p q r in
      let high = bit_or_low 6 (le24 a b c) (v / 2 ^ 2) (omega arith) in
      (
        omega (arith, whole),
        omega (arith, whole),
        omega (arith, whole, le16_lem a b q),
        omega (arith, whole),
        omega (arith, whole, high, le24_lem a b c q r),
      )

  -- With fewer than four bytes there is no copy3, and no literal for a fused copy2.
  copy3_starved :
      (s v : ℕ)
      → length src < s + 4
      → SameParse src corrupt (
          if v / 2 ^ 2 % 2 == 1
          then read_copy3 (v / 2 ^ 2) (drop (s + 1) src)
          else read_fused (v / 2 ^ 2) (drop (s + 1) src))
  unfolding read_copy3 read_fused
  copy3_starved s v h = elim (Bool-cases (v / 2 ^ 2 % 2 == 1)) [
    | inl a ↦ rw (a, read_three-past src (s + 1) (omega arith)) tt
    | inr a ↦ rw a (elim (Bool-cases (ltb (length src) (s + 3))) [
      | inl b ↦ rw (read_two-past src (s + 1) (omega (arith, ltb→lt (length src) (s + 3) b))) tt
      | inr b ↦
          let room = ltb→le (length src) (s + 3) b in
          let (x, y, f, g, r) = read_two-drop src (s + 1) (omega (arith, room)) in
          rw r (omega (arith, length-drop (s + 1 + 2) src))
    ])
  ]

  -- A copy3 from its word `w`.
  long_SameParse :
      (s value w v2 lits : ℕ)
      → s + 4 ≤ length src
      → w / 2 ^ 2 ≡ bit_or value (v2 * 2 ^ 6)
      → value / 2 % 4 ≡ lits
      → read_three (drop (s + 1) src) ≡ some (v2, drop (s + 4) src)
      → SameParse src
          (Machine.◌>>=◌
            (if leb 61 (w / 2 ^ 5 % 64)
              then checked_length src (s + 4) (w / 2 ^ 5 % 64) 61 64
              else next (w / 2 ^ 5 % 64 + 4, s + 4))
            (λ r. next (Machine.copy lits (w / 2 ^ 11 + 65536) r.0 r.1)))
          (read_copy3 value (drop (s + 1) src))
  unfolding read_copy3
  long_SameParse s value w v2 lits room word same r =
      let code : w / 2 ^ 2 / 2 ^ 3 ≡ w / 2 ^ 5 = omega arith in
      let offset : w / 2 ^ 2 / 2 ^ 9 ≡ w / 2 ^ 11 = omega arith in
      rw (r, ← word, code, offset, same)
        (SameParse-length src _ _ _ _ read (λ n t k. (refl, refl, refl, refl, k)))
    where
      read :
          SameLength src
            (if leb 61 (w / 2 ^ 5 % 64)
              then checked_length src (s + 4) (w / 2 ^ 5 % 64) 61 64
              else next (w / 2 ^ 5 % 64 + 4, s + 4))
            (if ltb (w / 2 ^ 5 % 64) 61
              then ok (w / 2 ^ 5 % 64 + 4, drop (s + 4) src)
              else extended Reader.copy3_length (w / 2 ^ 5 % 64) 61 64 (drop (s + 4) src))
      read = elim (Bool-cases (ltb (w / 2 ^ 5 % 64) 61)) [
        | inl a ↦
            let b : leb 61 (w / 2 ^ 5 % 64) ≡ false = ground arith in rw (a, b) (refl, refl, room)
        | inr a ↦
            let b : leb 61 (w / 2 ^ 5 % 64) ≡ true = ground arith in
            rw (a, b)
              (checked_length-SameLength src (s + 4) (w / 2 ^ 5 % 64) 61 64 Reader.copy3_length)
      ]

  fused_SameParse :
      (s value o : ℕ)
      → s + 3 ≤ length src
      → read_two (drop (s + 1) src) ≡ some (o, drop (s + 3) src)
      → SameParse src
          (next (Machine.copy (value / 2 % 4 + 1) (o + 64) (4 + value / 2 ^ 3) (s + 3)))
          (read_fused value (drop (s + 1) src))
  unfolding read_fused
  fused_SameParse s value o room r = rw r (refl, refl, omega arith, refl, room)

  copy3_SameParse :
      (s v : ℕ)
      → get_elem? src s ≡ some v
      → SameParse src (checked_copy3 src s) (
          if v / 2 ^ 2 % 2 == 1
          then read_copy3 (v / 2 ^ 2) (drop (s + 1) src)
          else read_fused (v / 2 ^ 2) (drop (s + 1) src))
  unfolding checked_copy3 load32 read_two
  copy3_SameParse s v e = elim (Bool-cases (ltb (length src) (s + 4))) [
    | inl h ↦ rw h (copy3_starved s v (ltb→lt (length src) (s + 4) h))
    | inr h ↦
        let room = ltb→le (length src) (s + 4) h in
        let (a, b, c, f, g, k, r) = read_three-drop src (s + 1) (omega (arith, room)) in
        let two : s + 1 + 1 ≡ s + 2 = omega arith in
        let three : s + 1 + 2 ≡ s + 3 = omega arith in
        let four : s + 1 + 3 ≡ s + 4 = omega arith in
        let g' : get_elem? src (s + 2) ≡ some b = rw two at g in
        let k' : get_elem? src (s + 3) ≡ some c = rw three at k in
        let r' : read_three (drop (s + 1) src) ≡ some (le24 a b c, drop (s + 4) src) =
          rw four at r in
        let behind : s + 1 + 1 + 1 ≡ s + 3 = omega arith in
        let q' : read_two (drop (s + 1) src) ≡ some (le16 a b, drop (s + 3) src) =
          rw (drop-suc (s + 1) src f, drop-suc (s + 1 + 1) src g, behind, read_two) refl in
        let w = le32 v a b c in
        let (tag, lits, offset, len, word) =
          word_fields v a b c (All-get_elem? IsByte src s bytes e)
            (All-get_elem? IsByte src (s + 1) bytes f)
            (All-get_elem? IsByte src (s + 2) bytes g') in
        rw (h, e, load8, f, g', k', tag, lits)
          (elim (Bool-cases (v / 2 ^ 2 % 2 == 1)) [
            | inl t ↦
                rw t (
                  long_SameParse s (v / 2 ^ 2) w (le24 a b c) (v / 2 ^ 2 / 2 % 4) room word refl r')
            | inr t ↦
                rw (t, offset, len)
                  (fused_SameParse s (v / 2 ^ 2) (le16 a b) (omega (arith, room)) q')
          ])
  ]

  -- The two switches read the same operation, behind the byte `v` at `s`.
  pub checked_parse-SameParse :
      (s v offset : ℕ)
      → get_elem? src s ≡ some v
      → s + 1 ≤ length src
      → SameParse src (checked_parse src s offset) (read_command v offset (drop (s + 1) src))
  unfolding checked_parse read_command
  checked_parse-SameParse s v offset e h =
      rw (e, load8)
        (elim (Bool-cases (v % 4 == 0)) [
          | inl a ↦ rw a (literal_SameParse src bytes s v offset h)
          | inr a ↦ rw a (elim (Bool-cases (v % 4 == 1)) [
            | inl b ↦ rw b (copy1_SameParse src bytes s v e)
            | inr b ↦ rw b (elim (Bool-cases (v % 4 == 2)) [
              | inl c ↦ rw c (copy2_SameParse src bytes s v e)
              | inr c ↦ rw c (copy3_SameParse s v e)
            ])
          ])
        ])
