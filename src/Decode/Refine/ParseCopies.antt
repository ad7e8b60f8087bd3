-- ===== src/Decode/Refine/ParseCopies.antt =====
-- Literals, repeats, copy1 and copy2 in the second loop of minLZDecodeGo against the reference
-- decoder.
use minlz.Prelude.{ℕ, ◌+◌, ◌*◌, ◌/◌, ◌%◌, ◌^◌, ◌≤◌, ◌≡◌, refl, arith, bit_or}
use minlz.Prelude.{List, some, All, length, get_elem?, drop}
use minlz.Prelude.{ltb, leb, ◌==◌, if◌then◌else◌, Bool-cases, inl, inr, ltb→le, ltb→lt}
use minlz.Prelude.Bits.{bit_or_high}
use minlz.Prelude.Slices.{All-get_elem?}
use minlz.Bytes.{IsByte, le16, le16_lem}
use minlz.Reference.Reader.{
  Error, Result, ok, err, panic, stuck, ◌>>=◌, require, read_one, read_two, read_three,
}
use minlz.Reference.Reader
use minlz.Reference.Decoder.{literals, copy, extended, read_literal_tag, read_copy1, read_copy2}
use minlz.Decode.Machine.{Outcome, next, corrupt, load8, load16, load32, Parsed}
use minlz.Decode.Machine
use minlz.Decode.Checked.{checked_length, checked_literal, checked_copy1, checked_copy2}
use minlz.Decode.Refine.Windows.{
  SameLength, checked_length-SameLength, read_one-drop, read_two-drop,
}
use minlz.Decode.Refine.Windows.{read_one-past, read_two-past}
use minlz.Decode.Refine.SameParse.{SameParse, SameParse-length}

module _ (src : List ℕ) (bytes : All IsByte src) where
  pub literal_SameParse :
      (s v offset : ℕ)
      → s + 1 ≤ length src
      → SameParse src
          (checked_literal src s v offset)
          (read_literal_tag (v / 2 ^ 2) offset (drop (s + 1) src))
  unfolding checked_literal read_literal_tag
  literal_SameParse s v offset h =
      let code : v / 2 ^ 2 / 2 ≡ v / 2 ^ 3 = omega arith in
      rw code (SameParse-length src _ _ _ _ read settle)
    where
      read :
          SameLength src
            (if ltb (v / 2 ^ 3) 29
              then next (v / 2 ^ 3 + 1, s + 1)
              else checked_length src (s + 1) (v / 2 ^ 3) 29 30)
            (if ltb (v / 2 ^ 3) 29
              then ok (v / 2 ^ 3 + 1, drop (s + 1) src)
              else extended Reader.literal_length (v / 2 ^ 3) 29 30 (drop (s + 1) src))
      read = elim (Bool-cases (ltb (v / 2 ^ 3) 29)) [
        | inl a ↦ rw a (refl, refl, h)
        | inr a ↦
            rw a (checked_length-SameLength src (s + 1) (v / 2 ^ 3) 29 30 Reader.literal_length)
      ]

      settle :
          (n t : ℕ)
          → t ≤ length src
          → SameParse src
              (next
                (if v / 2 ^ 2 % 2 == 1 then Machine.copy 0 offset n t else Machine.literals n t))
              (ok ((if v / 2 ^ 2 % 2 == 1 then copy 0 offset n else literals n), drop t src))
      settle n t k = elim (Bool-cases (v / 2 ^ 2 % 2 == 1)) [
        | inl a ↦ rw a (refl, refl, refl, refl, k)
        | inr a ↦ rw a (refl, refl, k)
      ]

  pub copy1_SameParse :
      (s v : ℕ)
      → get_elem? src s ≡ some v
      → SameParse src (checked_copy1 src s) (read_copy1 (v / 2 ^ 2) (drop (s + 1) src))
  unfolding checked_copy1 read_copy1 load16
  copy1_SameParse s v e = elim (Bool-cases (ltb (length src) (s + 2))) [
    | inl a ↦
        let none_left = read_one-past src (s + 1) (omega (arith, ltb→lt (length src) (s + 2) a)) in
        rw (a, none_left) tt
    | inr a ↦
        let room = ltb→le (length src) (s + 2) a in
        let (b, f, r) = read_one-drop src (s + 1) (omega (arith, room)) in
        let is_byte = All-get_elem? IsByte src s bytes e in
        let two : s + 1 + 1 ≡ s + 2 = omega arith in
        let offset : le16 v b / 2 ^ 6 ≡ bit_or (b * 2 ^ 2) (v / 2 ^ 2 / 2 ^ 4) =
          omega (arith, le16_lem v b is_byte, bit_or_high 2 b (v / 2 ^ 2 / 2 ^ 4) (omega arith)) in
        rw (a, e, load8, f, r, two, offset)
          (elim (Bool-cases (v / 2 ^ 2 % 16 == 15)) [
            | inr k ↦ rw k (refl, refl, refl, refl, room)
            | inl k ↦ rw k (elim (Bool-cases (ltb (length src) (s + 3))) [
              | inl t ↦
                  let none_left =
                    read_one-past src (s + 2) (omega (arith, ltb→lt (length src) (s + 3) t)) in
                  rw (t, none_left) tt
              | inr t ↦
                  let room' = ltb→le (length src) (s + 3) t in
                  let (n, m, q) = read_one-drop src (s + 2) (omega (arith, room')) in
                  let three : s + 2 + 1 ≡ s + 3 = omega arith in
                  rw (t, m, load8, q, three) (refl, refl, refl, refl, room')
            ])
          ])
  ]

  pub copy2_SameParse :
      (s v : ℕ)
      → get_elem? src s ≡ some v
      → SameParse src (checked_copy2 src s) (read_copy2 (v / 2 ^ 2) (drop (s + 1) src))
  unfolding checked_copy2 read_copy2
  copy2_SameParse s v e = elim (Bool-cases (ltb (length src) (s + 3))) [
    | inl a ↦
        let none_left = read_two-past src (s + 1) (omega (arith, ltb→lt (length src) (s + 3) a)) in
        rw (a, none_left) tt
    | inr a ↦
        let room = ltb→le (length src) (s + 3) a in
        let (b, c, f, g, r) = read_two-drop src (s + 1) (omega (arith, room)) in
        let two : s + 1 + 1 ≡ s + 2 = omega arith in
        let three : s + 1 + 2 ≡ s + 3 = omega arith in
        let g' : get_elem? src (s + 2) ≡ some c = rw two at g in
        rw (a, e, load8, f, g', r, three)
          (SameParse-length src _ _ _ _ (read room) (λ n t k. (refl, refl, refl, refl, k)))
  ]
    where
      read :
          s + 3 ≤ length src
          → SameLength src
              (if leb (v / 2 ^ 2) 60
                then next (v / 2 ^ 2 + 4, s + 3)
                else checked_length src (s + 3) (v / 2 ^ 2) 61 64)
              (if leb (v / 2 ^ 2) 60
                then ok (v / 2 ^ 2 + 4, drop (s + 3) src)
                else extended Reader.copy2_length (v / 2 ^ 2) 61 64 (drop (s + 3) src))
      read room = elim (Bool-cases (leb (v / 2 ^ 2) 60)) [
        | inl a ↦ rw a (refl, refl, room)
        | inr a ↦ rw a (checked_length-SameLength src (s + 3) (v / 2 ^ 2) 61 64 Reader.copy2_length)
      ]
