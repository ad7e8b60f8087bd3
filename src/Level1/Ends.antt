-- ===== src/Level1/Ends.antt =====
-- Total correctness of a computation on slices: it ends with a value, and the value meets `P`.
use minlz.Prelude.{◌≡◌, refl}
use minlz.Decode.Machine.{Outcome, next, corrupt, panic, stuck, ◌>>=◌}

abbrev pub Ends {ℓ} : {A : Type ℓ} → (A → Type 0) → Outcome A → Type 0
Ends P (next a) = P a
Ends P corrupt = ⊥
Ends P panic = ⊥
Ends P stuck = ⊥

pub Ends-bind {ℓ κ} :
    {A : Type ℓ} {B : Type κ} (P : A → Type 0) (Q : B → Type 0) (m : Outcome A) (f : A → Outcome B)
    → Ends P m
    → ((a : A) → P a → Ends Q (f a))
    → Ends Q (m >>= f)
Ends-bind P Q (next a) f h k = k a h
Ends-bind P Q corrupt f h k = h
Ends-bind P Q panic f h k = h
Ends-bind P Q stuck f h k = h

pub Ends-weaken {ℓ} :
    {A : Type ℓ} (P Q : A → Type 0) (m : Outcome A) → Ends P m → ((a : A) → P a → Q a) → Ends Q m
Ends-weaken P Q (next a) h k = k a h
Ends-weaken P Q corrupt h k = h
Ends-weaken P Q panic h k = h
Ends-weaken P Q stuck h k = h

pub Ends-next {ℓ} :
    {A : Type ℓ} (P : A → Type 0) (m : Outcome A) → Ends P m → (a : A) × (m ≡ next a) × P a
Ends-next P (next a) h = (a, refl, h)
Ends-next P corrupt h = absurd h
Ends-next P panic h = absurd h
Ends-next P stuck h = absurd h

pub Ends-assoc {ℓ κ μ} :
    {A : Type ℓ} {B : Type κ} {C : Type μ} (Q : C → Type 0) (m : Outcome A) (f : A → Outcome B)
    (g : B → Outcome C)
    → Ends Q ((m >>= f) >>= g)
    → Ends Q (m >>= λ a. f a >>= g)
Ends-assoc Q (next a) f g h = h
Ends-assoc Q corrupt f g h = h
Ends-assoc Q panic f g h = h
Ends-assoc Q stuck f g h = h
