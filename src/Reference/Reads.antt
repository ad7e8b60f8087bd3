-- ===== src/Reference/Reads.antt =====
-- What the reference decoder reads for one operation is well formed, and no reader panics.
use minlz.Prelude.{ℕ, ◌+◌, ◌-◌, ◌*◌, bit_or, ◌/◌, ◌%◌, ◌^◌, ◌≤◌, ◌≡◌, refl, arith}
use minlz.Prelude.{List, [], ◌∷◌, Bool, true, false, inl, inr}
use minlz.Prelude.{length, ltb, leb, ◌==◌, if◌then◌else◌, Bool-cases}
use minlz.Reference.Reader.{Error, Result, ok, err, panic, stuck, ◌>>=◌, require}
use minlz.Reference.Reader.{read_one, read_two, read_three}
use minlz.Reference.Decoder.{Command, literals, copy, extended, read_literal_tag, read_copy1}
use minlz.Reference.Decoder.{read_copy2, read_fused, read_copy3, read_command}

-- A value that meets `P`, or an error.
abbrev pub Ensures {ℓ} : {A : Type ℓ} → (A → Type 0) → Result A → Type 0
Ensures P (ok a) = P a
Ensures P (err e) = Unit {0}
Ensures P panic = ⊥
Ensures P stuck = ⊥

pub Ensures-bind {ℓ κ} :
    {A : Type ℓ} {B : Type κ} (P : A → Type 0) (Q : B → Type 0) (m : Result A) (f : A → Result B)
    → Ensures P m
    → ((a : A) → P a → Ensures Q (f a))
    → Ensures Q (m >>= f)
Ensures-bind P Q (ok a) f h k = k a h
Ensures-bind P Q (err e) f h k = tt
Ensures-bind P Q panic f h k = h
Ensures-bind P Q stuck f h k = h

pub Ensures-weaken {ℓ} :
    {A : Type ℓ} (P Q : A → Type 0) (m : Result A)
    → Ensures P m
    → ((a : A) → P a → Q a)
    → Ensures Q m
Ensures-weaken P Q (ok a) h k = k a h
Ensures-weaken P Q (err e) h k = tt
Ensures-weaken P Q panic h k = h
Ensures-weaken P Q stuck h k = h

pub Ensures-congr {ℓ κ} :
    {A : Type ℓ} {B : Type κ} (P : A → Type 0) (m : Result A) (f g : A → Result B)
    → Ensures P m
    → ((a : A) → P a → f a ≡ g a)
    → (m >>= f) ≡ (m >>= g)
Ensures-congr P (ok a) f g h k = k a h
Ensures-congr P (err e) f g h k = refl
Ensures-congr P panic f g h k = refl
Ensures-congr P stuck f g h k = refl

pub Ensures-if {ℓ} :
    {A : Type ℓ} (P : A → Type 0) (b : Bool) (x y : Result A)
    → (b ≡ true → Ensures P x)
    → (b ≡ false → Ensures P y)
    → Ensures P (if b then x else y)
Ensures-if P true x y h k = h refl
Ensures-if P false x y h k = k refl

-- What a reader leaves is shorter than what it was given, by `most` bytes at most.
abbrev pub Shrinks {ℓ} : {A : Type ℓ} → (most : ℕ) → List ℕ → A × List ℕ → Type 0
Shrinks most src r = (length r.1 ≤ length src) × (length src ≤ length r.1 + most)

read_one-Shrinks : (e : Error) (src : List ℕ) → Ensures (Shrinks 3 src) (require e (read_one src))
unfolding read_one
read_one-Shrinks e [] = tt
read_one-Shrinks e (a ∷ src) = omega arith

read_two-Shrinks : (e : Error) (src : List ℕ) → Ensures (Shrinks 3 src) (require e (read_two src))
unfolding read_two
read_two-Shrinks e [] = tt
read_two-Shrinks e (a ∷ []) = tt
read_two-Shrinks e (a ∷ b ∷ src) = omega arith

read_three-Shrinks :
    (e : Error) (src : List ℕ) → Ensures (Shrinks 3 src) (require e (read_three src))
unfolding read_three
read_three-Shrinks e [] = tt
read_three-Shrinks e (a ∷ []) = tt
read_three-Shrinks e (a ∷ b ∷ []) = tt
read_three-Shrinks e (a ∷ b ∷ c ∷ src) = omega arith

-- The length that a command copies is positive, and so is its offset. Literals are fused to copies
-- of four bytes or more only.
abbrev pub IsCommand : Command → Type 0
IsCommand (literals n) = 1 ≤ n
IsCommand (copy extra offset len) = (1 ≤ offset) × (1 ≤ len) × (extra ≤ 4) × (extra ≤ 4 * (len - 3))

abbrev pub Reads : List ℕ → Command × List ℕ → Type 0
Reads src r = IsCommand r.0 × Shrinks 6 src r

abbrev Length : ℕ → List ℕ → ℕ × List ℕ → Type 0
Length least src r = (least ≤ r.0) × Shrinks 3 src r

extended-Length :
    (e : Error) (least code from base : ℕ) (src : List ℕ)
    → least ≤ base
    → Ensures (Length least src) (extended e code from base src)
unfolding extended
extended-Length e least code from base src h =
    Ensures-bind (Shrinks 3 src) (Length least src) _ _ shorter (λ r k. (omega arith, k))
  where
    shorter : Ensures (Shrinks 3 src) (
        require e (
          if code == from
          then read_one src
          else if code == from + 1
          then read_two src
          else read_three src))
    shorter = elim (Bool-cases (code == from)) [
      | inl p ↦ rw p (read_one-Shrinks e src)
      | inr p ↦ rw p (elim (Bool-cases (code == from + 1)) [
        | inl q ↦ rw q (read_two-Shrinks e src)
        | inr q ↦ rw q (read_three-Shrinks e src)
      ])
    ]

read_literal_tag-Reads :
    (value offset : ℕ) (src : List ℕ)
    → 1 ≤ offset
    → Ensures (Reads src) (read_literal_tag value offset src)
unfolding read_literal_tag
read_literal_tag-Reads value offset src h =
    Ensures-bind (Length 1 src) (Reads src) _ _
      (Ensures-if (Length 1 src) (ltb (value / 2) 29) _ _ (λ _. omega arith)
        (λ _. extended-Length _ 1 (value / 2) 29 30 src (omega arith)))
      (λ r k. elim (Bool-cases (value % 2 == 1)) [
        | inl p ↦ rw p ((h, k.0, omega arith, omega arith), omega arith)
        | inr p ↦ rw p (k.0, omega arith)
      ])

read_copy1-Reads : (value : ℕ) (src : List ℕ) → Ensures (Reads src) (read_copy1 value src)
unfolding read_copy1
read_copy1-Reads value src =
    Ensures-bind (Shrinks 3 src) (Reads src) _ _ (read_one-Shrinks _ src) λ r k.
      Ensures-bind (Length 1 r.1) (Reads src) _ _
        (Ensures-if (Length 1 r.1) (value % 16 == 15) _ _
          (λ _.
            Ensures-bind (Shrinks 3 r.1) (Length 1 r.1) _ _ (read_one-Shrinks _ r.1)
              (λ t l. omega arith))
          (λ _. omega arith))
        (λ t l. ((omega arith, l.0, omega arith, omega arith), omega arith))

read_copy2-Reads : (value : ℕ) (src : List ℕ) → Ensures (Reads src) (read_copy2 value src)
unfolding read_copy2
read_copy2-Reads value src =
    Ensures-bind (Shrinks 3 src) (Reads src) _ _ (read_two-Shrinks _ src) λ r k.
      Ensures-bind (Length 1 r.1) (Reads src) _ _
        (Ensures-if (Length 1 r.1) (leb value 60) _ _ (λ _. omega arith)
          (λ _. extended-Length _ 1 value 61 64 r.1 (omega arith)))
        (λ t l. ((omega arith, l.0, omega arith, omega arith), omega arith))

read_fused-Reads : (value : ℕ) (src : List ℕ) → Ensures (Reads src) (read_fused value src)
unfolding read_fused
read_fused-Reads value src =
    Ensures-bind (Shrinks 3 src) (Reads src) _ _ (read_two-Shrinks _ src)
      (λ r k. ((omega arith, omega arith, omega arith, omega arith), omega arith))

read_copy3-Reads : (value : ℕ) (src : List ℕ) → Ensures (Reads src) (read_copy3 value src)
unfolding read_copy3
read_copy3-Reads value src =
    Ensures-bind (Shrinks 3 src) (Reads src) _ _ (read_three-Shrinks _ src) λ r k.
      let code = bit_or value (r.0 * 2 ^ 6) / 2 ^ 3 % 64 in
      Ensures-bind (Length 4 r.1) (Reads src) _ _
        (Ensures-if (Length 4 r.1) (ltb code 61) _ _ (λ _. omega arith)
          (λ _. extended-Length _ 4 code 61 64 r.1 (omega arith)))
        (λ t l. ((omega arith, omega arith, omega arith, omega arith), omega arith))

pub read_command-Reads :
    (v offset : ℕ) (src : List ℕ) → 1 ≤ offset → Ensures (Reads src) (read_command v offset src)
unfolding read_command
read_command-Reads v offset src h =
    let value = v / 2 ^ 2 in
    Ensures-if (Reads src) (v % 4 == 0) _ _ (λ _. read_literal_tag-Reads value offset src h)
      λ _.
        Ensures-if (Reads src) (v % 4 == 1) _ _ (λ _. read_copy1-Reads value src)
          λ _.
            Ensures-if (Reads src) (v % 4 == 2) _ _ (λ _. read_copy2-Reads value src)
              λ _.
                Ensures-if (Reads src) (value % 2 == 1) _ _ (λ _. read_copy3-Reads value src)
                  (λ _. read_fused-Reads value src)
