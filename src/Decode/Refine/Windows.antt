-- ===== src/Decode/Refine/Windows.antt =====
-- Guarded reads by index against the reference decoder's reads from the front of what is left.
use minlz.Prelude.{ℕ, ◌+◌, ◌≤◌, ◌<◌, ◌≡◌, refl, arith}
use minlz.Prelude.{List, [], ◌∷◌, none, some, length, get_elem?, drop, length-drop, get_elem?-lt}
use minlz.Prelude.{ltb, ◌==◌, Bool-cases, inl, inr, ltb→le, ltb→lt}
use minlz.Prelude.Slices.{drop-suc}
use minlz.Bytes.{le16, le24}
use minlz.Reference.Reader.{Error, Result, ok, err, read_one, read_two, read_three}
use minlz.Reference.Decoder.{extended}
use minlz.Decode.Machine.{Outcome, next, corrupt, load8}
use minlz.Decode.Checked.{checked_length}

module _ (src : List ℕ) where
  pub read_one-drop :
      (s : ℕ)
      → s + 1 ≤ length src
      → (a : ℕ) × (get_elem? src s ≡ some a) × (read_one (drop s src) ≡ some (a, drop (s + 1) src))
  unfolding read_one
  read_one-drop s h = let (a, e) = get_elem?-lt src s (omega arith) in (a, e, rw (drop-suc s src e))

  pub read_two-drop :
      (s : ℕ)
      → s + 2 ≤ length src
      → (a b : ℕ) × (get_elem? src s ≡ some a)
        × (get_elem? src (s + 1) ≡ some b)
        × (read_two (drop s src) ≡ some (le16 a b, drop (s + 2) src))
  unfolding read_two
  read_two-drop s h =
      let (a, e) = get_elem?-lt src s (omega arith) in
      let (b, f) = get_elem?-lt src (s + 1) (omega arith) in
      let z : s + 1 + 1 ≡ s + 2 = omega arith in
      (a, b, e, f, rw (drop-suc s src e, drop-suc (s + 1) src f, z))

  pub read_three-drop :
      (s : ℕ)
      → s + 3 ≤ length src
      → (a b c : ℕ) × (get_elem? src s ≡ some a)
        × (get_elem? src (s + 1) ≡ some b)
        × (get_elem? src (s + 2) ≡ some c)
        × (read_three (drop s src) ≡ some (le24 a b c, drop (s + 3) src))
  unfolding read_three
  read_three-drop s h =
      let (a, e) = get_elem?-lt src s (omega arith) in
      let (b, f) = get_elem?-lt src (s + 1) (omega arith) in
      let (c, g) = get_elem?-lt src (s + 2) (omega arith) in
      let y : s + 1 + 1 ≡ s + 2 = omega arith in
      let z : s + 2 + 1 ≡ s + 3 = omega arith in
      (
        a,
        b,
        c,
        e,
        f,
        g,
        rw (drop-suc s src e, drop-suc (s + 1) src f, y, drop-suc (s + 2) src g, z),
      )

read_one-short : (xs : List ℕ) → length xs < 1 → read_one xs ≡ none
unfolding read_one
read_one-short [] h = refl
read_one-short (x ∷ xs) h = absurd (omega arith)

read_two-short : (xs : List ℕ) → length xs < 2 → read_two xs ≡ none
unfolding read_two
read_two-short [] h = refl
read_two-short (x ∷ []) h = refl
read_two-short (x ∷ y ∷ xs) h = absurd (omega arith)

read_three-short : (xs : List ℕ) → length xs < 3 → read_three xs ≡ none
unfolding read_three
read_three-short [] h = refl
read_three-short (x ∷ []) h = refl
read_three-short (x ∷ y ∷ []) h = refl
read_three-short (x ∷ y ∷ z ∷ xs) h = absurd (omega arith)

module _ (src : List ℕ) (s : ℕ) where
  pub read_one-past : length src < s + 1 → read_one (drop s src) ≡ none
  read_one-past h = read_one-short (drop s src) (omega (arith, length-drop s src))

  pub read_two-past : length src < s + 2 → read_two (drop s src) ≡ none
  read_two-past h = read_two-short (drop s src) (omega (arith, length-drop s src))

  pub read_three-past : length src < s + 3 → read_three (drop s src) ≡ none
  read_three-past h = read_three-short (drop s src) (omega (arith, length-drop s src))

-- The same length, and the same position behind it; or no length on either side.
abbrev pub SameLength : (src : List ℕ) → Outcome (ℕ × ℕ) → Result (ℕ × List ℕ) → Type 0
SameLength src (next (n, s)) (ok (m, rest)) = (n ≡ m) × (rest ≡ drop s src) × (s ≤ length src)
SameLength src corrupt (err e) = Unit {0}
SameLength src _ _ = ⊥

-- On every input the bounds-checked reads of an extended length in the second loop, by index, and
-- the reference decoder's, from the front of what is left, give the same length and leave the same
-- bytes, or both fail.
pub checked_length-SameLength :
    (src : List ℕ) (s code from base : ℕ) (e : Error)
    → SameLength src (checked_length src s code from base) (extended e code from base (drop s src))
unfolding checked_length extended
checked_length-SameLength src s code from base e = elim (Bool-cases (code == from)) [
  | inl a ↦ rw a (elim (Bool-cases (ltb (length src) (s + 1))) [
    | inl b ↦ rw (b, read_one-past src s (ltb→lt _ _ b)) tt
    | inr b ↦
        let (x, p, q) = read_one-drop src s (ltb→le _ _ b) in
        rw (b, load8, p, q) (refl, refl, ltb→le _ _ b)
  ])
  | inr a ↦ rw a (elim (Bool-cases (code == from + 1)) [
    | inl c ↦ rw c (elim (Bool-cases (ltb (length src) (s + 2))) [
      | inl b ↦ rw (b, read_two-past src s (ltb→lt _ _ b)) tt
      | inr b ↦
          let (x, y, p, q, r) = read_two-drop src s (ltb→le _ _ b) in
          rw (b, load8, p, q, r) (refl, refl, ltb→le _ _ b)
    ])
    | inr c ↦ rw c (elim (Bool-cases (ltb (length src) (s + 3))) [
      | inl b ↦ rw (b, read_three-past src s (ltb→lt _ _ b)) tt
      | inr b ↦
          let (x, y, z, p, q, r, t) = read_three-drop src s (ltb→le _ _ b) in
          rw (b, load8, p, q, r, t) (refl, refl, ltb→le _ _ b)
    ])
  ])
]
