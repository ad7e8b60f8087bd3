-- ===== src/Reference/Returns.antt =====
-- Total correctness: a computation of the encoder returns a value, and the value meets `P`.
use minlz.Reference.Reader.{Result, ok, err, panic, stuck, ◌>>=◌}

abbrev pub Returns {ℓ} : {A : Type ℓ} → (A → Type 0) → Result A → Type 0
Returns P (ok a) = P a
Returns P (err e) = ⊥
Returns P panic = ⊥
Returns P stuck = ⊥

pub Returns-bind {ℓ κ} :
    {A : Type ℓ} {B : Type κ} (P : A → Type 0) (Q : B → Type 0) (m : Result A) (f : A → Result B)
    → Returns P m
    → ((a : A) → P a → Returns Q (f a))
    → Returns Q (m >>= f)
Returns-bind P Q (ok a) f h k = k a h
Returns-bind P Q (err e) f h k = h
Returns-bind P Q panic f h k = h
Returns-bind P Q stuck f h k = h

pub Returns-weaken {ℓ} :
    {A : Type ℓ} (P Q : A → Type 0) (m : Result A)
    → Returns P m
    → ((a : A) → P a → Q a)
    → Returns Q m
Returns-weaken P Q (ok a) h k = k a h
Returns-weaken P Q (err e) h k = h
Returns-weaken P Q panic h k = h
Returns-weaken P Q stuck h k = h
