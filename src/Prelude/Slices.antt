-- ===== src/Prelude/Slices.antt =====
-- Windows of a slice, and writes into it.
use Prim.Native.Nat.{ℕ, zero, suc, ◌+◌, ◌≤◌, ◌<◌}
use mathlib.Core.Path.{◌≡◌, refl, ap, subst}
use mathlib.Core.List.{List, [], ◌∷◌, ◌++◌}
use mathlib.Core.Option.{some, some_inj}
use native.Mathlib.Nat.{zero-add, suc-add}
use native.Mathlib.Omega.{arith}
use minlz.Prelude.Lists.{length, get_elem?, set, take, drop, All}

module _ {ℓ} {A : Type ℓ} where
  pub drop-suc :
      (s : ℕ) (xs : List A) {a : A} → get_elem? xs s ≡ some a → drop s xs ≡ a ∷ drop (s + 1) xs
  drop-suc s [] e = cc
  drop-suc zero (x ∷ xs) e = cc
  drop-suc (suc s) (x ∷ xs) e = rw suc-add (drop-suc s xs e)

  pub drop-past : (s : ℕ) (xs : List A) → length xs ≤ s → drop s xs ≡ []
  drop-past zero [] h = refl
  drop-past zero (x ∷ xs) h = absurd (omega arith)
  drop-past (suc s) [] h = refl
  drop-past (suc s) (x ∷ xs) h = drop-past s xs (omega arith)

  pub drop-drop : (a b : ℕ) (xs : List A) → drop a (drop b xs) ≡ drop (b + a) xs
  drop-drop a zero xs = rw zero-add
  drop-drop zero (suc b) [] = rw suc-add
  drop-drop (suc a) (suc b) [] = rw suc-add
  drop-drop a (suc b) (x ∷ xs) = rw suc-add (drop-drop a b xs)

  pub take-set :
      (d : ℕ) (xs : List A) (b : A)
      → d < length xs
      → take (d + 1) (set xs d b) ≡ take d xs ++ (b ∷ [])
  take-set d [] b h = absurd (omega arith)
  take-set zero (x ∷ xs) b h = refl
  take-set (suc d) (x ∷ xs) b h = rw suc-add (ap (λ ys. x ∷ ys) (take-set d xs b (omega arith)))

  pub length-set : (xs : List A) (i : ℕ) (v : A) → length (set xs i v) ≡ length xs
  length-set [] i v = refl
  length-set (x ∷ xs) zero v = refl
  length-set (x ∷ xs) (suc i) v = ap suc (length-set xs i v)

  pub get_elem?-append_left :
      (xs ys : List A) (i : ℕ) → i < length xs → get_elem? (xs ++ ys) i ≡ get_elem? xs i
  get_elem?-append_left [] ys i h = absurd (omega arith)
  get_elem?-append_left (x ∷ xs) ys zero h = refl
  get_elem?-append_left (x ∷ xs) ys (suc i) h = get_elem?-append_left xs ys i (omega arith)

  -- The first elements of a list that begins with a prefix of that length or more.
  pub take_append_add : (xs ys : List A) (n : ℕ) → take (length xs + n) (xs ++ ys) ≡ xs ++ take n ys
  take_append_add [] ys n = rw zero-add
  take_append_add (x ∷ xs) ys n = rw suc-add (ap (λ zs. x ∷ zs) (take_append_add xs ys n))

  -- A window inside of a prefix is a window of the whole.
  pub take-drop-take :
      (p n d : ℕ) (xs : List A) → p + n ≤ d → take n (drop p (take d xs)) ≡ take n (drop p xs)
  take-drop-take p zero d xs h = refl
  take-drop-take zero (suc n) zero xs h = absurd (omega arith)
  take-drop-take zero (suc n) (suc d) [] h = refl
  take-drop-take zero (suc n) (suc d) (x ∷ xs) h =
      ap (λ ys. x ∷ ys) (take-drop-take zero n d xs (omega arith))
  take-drop-take (suc p) (suc n) zero xs h = absurd (omega arith)
  take-drop-take (suc p) (suc n) (suc d) [] h = refl
  take-drop-take (suc p) (suc n) (suc d) (x ∷ xs) h = take-drop-take p (suc n) d xs (omega arith)

  pub take-append_le : (n : ℕ) (xs ys : List A) → n ≤ length xs → take n (xs ++ ys) ≡ take n xs
  take-append_le zero xs ys h = refl
  take-append_le (suc n) [] ys h = absurd (omega arith)
  take-append_le (suc n) (x ∷ xs) ys h = ap (λ zs. x ∷ zs) (take-append_le n xs ys (omega arith))

  pub All-get_elem? {κ} :
      (P : A → Type κ) (xs : List A) (i : ℕ) {a : A} → All P xs → get_elem? xs i ≡ some a → P a
  All-get_elem? P [] i h e = cc
  All-get_elem? P (x ∷ xs) zero h e = subst P ((some_inj.0 e)) h.0
  All-get_elem? P (x ∷ xs) (suc i) h e = All-get_elem? P xs i h.1 e

  pub All-drop {κ} : (P : A → Type κ) (n : ℕ) (xs : List A) → All P xs → All P (drop n xs)
  All-drop P zero xs h = h
  All-drop P (suc n) [] h = tt
  All-drop P (suc n) (x ∷ xs) h = All-drop P n xs h.1

  pub All-append {κ} : (P : A → Type κ) (xs ys : List A) → All P xs → All P ys → All P (xs ++ ys)
  All-append P [] ys h k = k
  All-append P (x ∷ xs) ys h k = (h.0, All-append P xs ys h.1 k)

  pub All-take {κ} : (P : A → Type κ) (n : ℕ) (xs : List A) → All P xs → All P (take n xs)
  All-take P zero xs h = tt
  All-take P (suc n) [] h = tt
  All-take P (suc n) (x ∷ xs) h = (h.0, All-take P n xs h.1)

  pub All-slice {κ} :
      (P : A → Type κ) (k n : ℕ) (xs : List A) → All P xs → All P (take k (drop n xs))
  All-slice P k n xs h = All-take P k (drop n xs) (All-drop P n xs h)

  pub All-map {κ ι} :
      (P : A → Type κ) (Q : A → Type ι) (xs : List A) → ((x : A) → P x → Q x) → All P xs → All Q xs
  All-map P Q [] f h = tt
  All-map P Q (x ∷ xs) f h = (f x h.0, All-map P Q xs f h.1)
