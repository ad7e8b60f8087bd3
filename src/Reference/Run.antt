-- ===== src/Reference/Run.antt =====
-- The loop of DecodeBlock ends on every input, and its result does not depend on the fuel.
use minlz.Prelude.{ℕ, zero, suc, ◌≤◌, ◌≡◌, refl, arith, List, [], ◌∷◌}
use minlz.Prelude.{length, ◌==◌, ==_iff}
use minlz.Reference.Reader.{Result, ok, ◌>>=◌}
use minlz.Reference.Decoder.{State, step, run, initial, decode_body}
use minlz.Reference.Reads.{Ensures, Ensures-bind, Ensures-congr, Ensures-if}
use minlz.Reference.Total.{IsValid, Continues, step-Continues}

-- With a round for each byte that is left, the loop ends with a valid state or an error.
pub run_total :
    (fuel want : ℕ) (st : State) (src : List ℕ)
    → IsValid want st
    → length src ≤ fuel
    → Ensures (IsValid want) (run fuel want st src)
unfolding run
run_total fuel want st [] v h = v
run_total zero want st (b ∷ src) v h = absurd (omega arith)
run_total (suc fuel) want st (b ∷ src) v h =
    Ensures-bind (Continues want st src) (IsValid want) _ _ (step-Continues want b st src v)
      λ r k. run_total fuel want r.0 r.1 k.valid (omega arith)

run_fuel :
    (f g want : ℕ) (st : State) (src : List ℕ)
    → IsValid want st
    → length src ≤ f
    → length src ≤ g
    → run f want st src ≡ run g want st src
unfolding run
run_fuel f g want st [] v p q = refl
run_fuel zero g want st (b ∷ src) v p q = absurd (omega arith)
run_fuel (suc f) zero want st (b ∷ src) v p q = absurd (omega arith)
run_fuel (suc f) (suc g) want st (b ∷ src) v p q =
    Ensures-congr (Continues want st src) _ _ _ (step-Continues want b st src v)
      λ t k. run_fuel f g want t.0 t.1 k.valid (omega arith) (omega arith)

-- The loop with as many rounds as it can need.
unfoldable pub run_all : (want : ℕ) → State → List ℕ → Result State
run_all want st src = run (length src) want st src

pub run_all-cons :
    (want b : ℕ) (st st' : State) (src src' : List ℕ)
    → IsValid want st
    → step want b st src ≡ ok (st', src')
    → run_all want st (b ∷ src) ≡ run_all want st' src'
unfolding run_all run
run_all-cons want b st st' src src' v e =
    let k : Continues want st src (st', src') = rw e at (step-Continues want b st src v) in
    rw e (run_fuel (length src) (length src') want st' src' k.valid k.shrinks (omega arith))

pub initial-IsValid : (want : ℕ) → IsValid want initial
initial-IsValid want = omega arith

-- On every input the body loop of DecodeBlock ends without a panic, and returns exactly the `want`
-- bytes that were announced or an error.
pub decode_body_total :
    (want : ℕ) (src : List ℕ) → Ensures (λ out. length out ≡ want) (decode_body want src)
unfolding decode_body
decode_body_total want src =
    Ensures-bind (IsValid want) (λ out. length out ≡ want) _ _
      (run_total (length src) want initial src (initial-IsValid want) (omega arith))
      λ st v.
        Ensures-if (λ out. length out ≡ want) (length st.out == want) _ _ (λ e. (==_iff _ _).0 e)
          (λ _. tt)

-- One round, and the loop on what is left.
pub run_all-step :
    (want b : ℕ) (st : State) (src : List ℕ)
    → IsValid want st
    → run_all want st (b ∷ src) ≡ (step want b st src >>= λ r. run_all want r.0 r.1)
unfolding run_all run
run_all-step want b st src v =
    Ensures-congr (Continues want st src) _ _ _ (step-Continues want b st src v)
      λ r k. run_fuel (length src) (length r.1) want r.0 r.1 k.valid (omega arith) (omega arith)

pub run_all-nil : (want : ℕ) (st : State) → run_all want st [] ≡ ok st
unfolding run_all run
run_all-nil want st = refl
