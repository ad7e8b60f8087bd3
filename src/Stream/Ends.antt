-- ===== src/Stream/Ends.antt =====
-- How a part of ReadStream ends, and that DecodeBlock, which it calls, neither panics nor runs on.
use minlz.Prelude.{ℕ, ◌+◌, ◌≡◌, ◌/◌, ◌%◌, ◌^◌, ◌||◌, ◌*◌, bit_or, refl, List, [], ◌∷◌}
use minlz.Prelude.{Bool, true, false, length, ltb, ◌==◌}
use minlz.Prelude.{if◌then◌else◌}
use minlz.Reference.Reader
use minlz.Reference.Reader.{ok, err, panic}
use minlz.Reference.Reads.{Ensures, Ensures-bind, Ensures-weaken}
use minlz.Reference.Header.{decode_block, decode_sized, read_size, is_negative, too_large}
use minlz.Reference.Decoder.{decode_body}
use minlz.Reference.Run.{decode_body_total}
use minlz.Stream.Result.{Read, value, failed, panics, stuck, ◌>>=◌, decoding}
use minlz.Stream.Read.{decode_chunk}

-- A `Result` that is a value or an error.
abbrev Settles : {A : Type 0} → Reader.Result A → Type 0
Settles {A} m = Ensures {A = A} (λ a. Unit {0}) m

Settles-if :
    {A : Type 0} (t : Bool) (m n : Reader.Result A)
    → Settles m
    → Settles n
    → Settles (if t then m else n)
Settles-if true m n h k = h
Settles-if false m n h k = k

read_size-Settles : (i n : ℕ) (src : List ℕ) → Settles (read_size i n src)
unfolding read_size
read_size-Settles i n [] = Settles-if (i == 70) (err _) (err _) tt tt
read_size-Settles i n (v ∷ src) =
    let n' = bit_or n (v % 2 ^ 7 * 2 ^ i % 2 ^ 64) in
    Settles-if (i == 70) (err _) _ tt (
      Settles-if (too_large n') (err Reader.invalid_size) _ tt
        (Settles-if (v / 2 ^ 7 % 2 == 0) (ok (n', src)) _ tt (read_size-Settles (i + 7) n' src)))

decode_sized-Settles : (n : ℕ) (src : List ℕ) → Settles (decode_sized n src)
unfolding decode_sized
decode_sized-Settles n src = Settles-if (is_negative n || too_large n) (err _) _ tt (
    Settles-if (n == 0) (ok _) _ tt (
      Settles-if (ltb n (length src)) (err _) _ tt (
        Ensures-weaken (λ out. length out ≡ n) (λ a. Unit {0}) (decode_body n src)
          (decode_body_total n src) (λ a e. tt))))

-- DecodeBlock ends on every input without a panic.
decode_block-Settles : (b : List ℕ) → Settles (decode_block b)
unfolding decode_block
decode_block-Settles [] = tt
decode_block-Settles (v ∷ []) = Settles-if (v == 0) (ok []) (err _) tt tt
decode_block-Settles (v ∷ x ∷ src) =
    Settles-if (v == 0) _ (err _)
      (Ensures-bind (λ a. Unit {0}) (λ a. Unit {0}) (read_size 0 0 (x ∷ src)) _
        (read_size-Settles 0 0 (x ∷ src)) (λ r h. decode_sized-Settles r.0 r.1))
      tt

-- A state that meets `P`, an error, or a panic where `Q` holds.
abbrev pub Ends : {A : Type 0} (P : A → Type 0) (Q : Type 0) → Read A → Type 0
Ends P Q (value st) = P st
Ends P Q (failed e) = Unit {0}
Ends P Q panics = Q
Ends P Q stuck = ⊥

pub Ends-bind :
    {A : Type 0} {B : Type 0} (P : A → Type 0) (R : B → Type 0) (Q : Type 0) (m : Read A)
    (f : A → Read B)
    → Ends P Q m
    → ((a : A) → P a → Ends R Q (f a))
    → Ends R Q (m >>= f)
Ends-bind P R Q (value a) f h k = k a h
Ends-bind P R Q (failed e) f h k = tt
Ends-bind P R Q panics f h k = h
Ends-bind P R Q stuck f h k = h

module _ {A : Type 0} (P : A → Type 0) (Q : Type 0) where
  pub Ends-weaken :
      (P' : A → Type 0) (Q' : Type 0) (m : Read A)
      → Ends P' Q' m
      → ((a : A) → P' a → P a)
      → (Q' → Q)
      → Ends P Q m
  Ends-weaken P' Q' (value a) h k l = k a h
  Ends-weaken P' Q' (failed e) h k l = tt
  Ends-weaken P' Q' panics h k l = l h
  Ends-weaken P' Q' stuck h k l = h

  pub Ends-if :
      (t : Bool) (m n : Read A)
      → (t ≡ true → Ends P Q m)
      → (t ≡ false → Ends P Q n)
      → Ends P Q (if t then m else n)
  Ends-if true m n h k = h refl
  Ends-if false m n h k = k refl

pub decode_chunk-Ends : (b : List ℕ) → Ends (λ out. Unit {0}) ⊥ (decode_chunk b)
unfolding decode_chunk
decode_chunk-Ends b = settled (decode_block b) (decode_block-Settles b)
  where
    settled :
        (m : Reader.Result (List ℕ))
        → Settles m
        → Ends
            (λ out. Unit {0})
            ⊥
            (elim m [
              | ok out ↦ value out
              | err e ↦ failed (decoding e)
              | panic ↦ panics
              | Reader.stuck ↦ stuck
            ])
    settled (ok out) h = tt
    settled (err e) h = tt
    settled panic h = h
    settled Reader.stuck h = h
