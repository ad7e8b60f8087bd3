-- ===== src/Reference/Total.antt =====
-- The reference decoder ends on every input, with a value or an error: no index out of range, and
-- no loop without end.
use minlz.Prelude.{ℕ, zero, suc, ◌+◌, ◌-◌, ◌≤◌, ◌<◌, ◌≡◌, refl, ◌∙◌, arith}
use minlz.Prelude.{List, [], ◌∷◌, ◌++◌, some, true, inl, inr}
use minlz.Prelude.{length, get_elem?, ltb, leb, ◌==◌, Bool-cases}
use minlz.Prelude.{length-append, length-take, length-drop}
use minlz.Reference.Reader.{read_n}
use minlz.Reference.Decoder.{Command, literals, copy}
use minlz.Reference.Decoder.{check_dst_size}
use minlz.Reference.Decoder.{copy_loop, State, put_literals, put_extra, put_copy, execute, step}
use minlz.Reference.Reads.{
  Ensures, Ensures-bind, Ensures-weaken, Reads, IsCommand, read_command-Reads,
}

-- The state between two operations: an offset to repeat, and no more output than was announced.
pub record IsValid (want : ℕ) (st : State) : Type 0 where
  pub has_offset : 1 ≤ st.offset
  pub fits : length st.out ≤ want

check_dst_size_fits :
    (want : ℕ) (out : List ℕ) (n : ℕ) → check_dst_size want out n ≡ true → length out + n ≤ want
unfolding check_dst_size
check_dst_size_fits want out n h = ground arith

get_elem?-lt {ℓ} :
    {A : Type ℓ} (xs : List A) (i : ℕ) → i < length xs → (a : A) × (get_elem? xs i ≡ some a)
get_elem?-lt [] i h = absurd (omega arith)
get_elem?-lt (x ∷ xs) zero h = (x, refl)
get_elem?-lt (x ∷ xs) (suc i) h = get_elem?-lt xs i (omega arith)

-- The copy reads below what it has written.
pub copy_loop_total :
    (n position : ℕ) (out : List ℕ)
    → position < length out
    → (out' : List ℕ) × (copy_loop n position out ≡ some out') × (length out' ≡ length out + n)
unfolding copy_loop
copy_loop_total zero position out h = (out, refl, omega arith)
copy_loop_total (suc n) position out h =
    let (b, e) = get_elem?-lt out position h in
    let (out', r, l) =
      copy_loop_total n (position + 1) (out ++ (b ∷ [])) (rw length-append (omega arith)) in
    (out', rw (e, copy_loop) r, l ∙ rw length-append (omega arith))

-- A round that goes on keeps the state valid, lets the output grow, and lengthens no input.
pub record Continues (want : ℕ) (st : State) (src : List ℕ) (r : State × List ℕ) : Type 0 where
  pub valid : IsValid want r.0
  pub grows : length st.out ≤ length r.0.out
  pub shrinks : length r.1 ≤ length src

put_literals-Continues :
    (want n : ℕ) (st : State) (src : List ℕ)
    → IsValid want st
    → Ensures (Continues want st src) (put_literals want n st src)
unfolding put_literals
put_literals-Continues want n st src v = elim (Bool-cases (check_dst_size want st.out n)) [
  | inl p ↦ rw p (elim (Bool-cases (leb n (length src))) [
    | inl q ↦
        rw (q, read_n)
          (record {
            valid = record {
              has_offset = v.has_offset;
              fits =
                  rw (length-append, length-take)
                    (ground (arith, check_dst_size_fits want st.out n p));
            };
            grows = rw length-append (omega arith);
            shrinks = rw length-drop (omega arith);
          })
    | inr q ↦ rw (q, read_n) tt
  ])
  | inr p ↦ rw p tt
]

put_extra-Continues :
    (want n : ℕ) (st : State) (src : List ℕ)
    → IsValid want st
    → Ensures (Continues want st src) (put_extra want n st src)
unfolding put_extra
put_extra-Continues want n st src v = elim (Bool-cases (n == 0)) [
  | inl z ↦ rw z (record { valid = v; grows = omega arith; shrinks = omega arith })
  | inr z ↦ rw z (elim (Bool-cases (leb n (length src))) [
    | inl q ↦
        rw (q, read_n)
          (elim (Bool-cases (check_dst_size want st.out n)) [
            | inl p ↦ rw p (record {
              valid = record {
                has_offset = v.has_offset;
                fits =
                    rw (length-append, length-take)
                      (ground (arith, check_dst_size_fits want st.out n p));
              };
              grows = rw length-append (omega arith);
              shrinks = rw length-drop (omega arith);
            })
            | inr p ↦ rw p tt
          ])
    | inr q ↦ rw (q, read_n) tt
  ])
]

Copied : ℕ → State → State → Type 0
Copied want st st' = IsValid want st' × (length st.out ≤ length st'.out)

put_copy_continues :
    (want offset len : ℕ) (st : State)
    → IsValid want st
    → 1 ≤ offset
    → Ensures (Copied want st) (put_copy want offset len st)
unfolding put_copy Copied
put_copy_continues want offset len st v o = elim (Bool-cases (check_dst_size want st.out len)) [
  | inl p ↦ rw p (elim (Bool-cases (ltb (length st.out) offset)) [
    | inl q ↦ rw q tt
    | inr q ↦
        let (out', r, l) = copy_loop_total len (length st.out - offset) st.out (ground arith) in
        rw (q, r)
          (
            record { has_offset = o; fits = omega (arith, check_dst_size_fits want st.out len p) },
            omega arith,
          )
  ])
  | inr p ↦ rw p tt
]

execute-Continues :
    (want : ℕ) (c : Command) (st : State) (src : List ℕ)
    → IsValid want st
    → IsCommand c
    → Ensures (Continues want st src) (execute want c st src)
unfolding execute Copied
execute-Continues want (literals n) st src v g = put_literals-Continues want n st src v
execute-Continues want (copy extra offset len) st src v (o, l, x, y) =
    Ensures-bind (Continues want st src) (Continues want st src) _ _
      (put_extra-Continues want extra st src v)
      λ r k.
        Ensures-bind (Copied want r.0) (Continues want st src) _ _
          (put_copy_continues want offset len r.0 k.valid o)
          λ t m. record { valid = m.0; grows = omega arith; shrinks = k.shrinks }

-- A round of the loop of DecodeBlock, from a state whose output fits the size and whose offset is
-- positive, ends without a panic: with an error, or in a state that is valid again, with no less
-- output and no more input than before.
pub step-Continues :
    (want v : ℕ) (st : State) (src : List ℕ)
    → IsValid want st
    → Ensures (Continues want st src) (step want v st src)
unfolding step
step-Continues want v st src valid =
    Ensures-bind (Reads src) (Continues want st src) _ (λ r. execute want r.0 st r.1)
      (read_command-Reads v st.offset src valid.has_offset)
      λ r k.
        Ensures-weaken (Continues want st r.1) (Continues want st src) _
          (execute-Continues want r.0 st r.1 valid k.0)
          λ t m. record { valid = m.valid; grows = m.grows; shrinks = omega arith }
