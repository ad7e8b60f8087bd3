-- ===== src/Decode/Refine/Whole.antt =====
-- The two loops of minLZDecodeGo against the loop of the reference decoder, and the whole function.
use minlz.Prelude.{ℕ, zero, suc, ◌+◌, ◌≤◌, ◌≡◌, refl, sym, ◌∙◌, ap, arith}
use minlz.Prelude.{List, All, length, take, drop, length-drop, take-length, get_elem?-lt}
use minlz.Prelude.{ltb, ◌==◌, ==_iff, Bool-cases, inl, inr, false, if◌then◌else◌, ltb→lt, ltb→le}
use minlz.Prelude.Slices.{drop-suc, drop-past}
use minlz.Bytes.{IsByte}
use minlz.Reference.Reader.{Result, ok, err, panic, stuck, ◌>>=◌}
use minlz.Reference.Reader
use minlz.Reference.Decoder.{State, max_block_size, run, initial, decode_body}
use minlz.Reference.Reads.{Ensures}
use minlz.Reference.Total.{IsValid, Continues, step-Continues}
use minlz.Reference.Run.{run_all, run_all-nil, run_all-step, initial-IsValid}
use minlz.Decode.Machine.{Outcome, next, corrupt, Regs}
use minlz.Decode.Machine
use minlz.Decode.Checked.{checked_loop}
use minlz.Decode.Fast.{fast_step, fast_loop, min_lz_decode}
use minlz.Decode.Refine.Steps.{Agrees}
use minlz.Decode.Refine.Copies.{length-take_le}
use minlz.Decode.Refine.Round.{SameRound, checked_step-SameRound}
use minlz.Decode.Refine.FastRound.{fast_step-SameRound}

-- Both loops end in states that agree, or both stop with an error.
abbrev pub SameEnd : (want : ℕ) → Outcome Regs → Result State → Type 0
SameEnd want (next r) (ok st) = Agrees want r st
SameEnd want corrupt (err e) = Unit {0}
SameEnd want _ _ = ⊥

-- Behind a round.
SameEnd-round :
    (want s : ℕ) (src : List ℕ) (st : State) (m : Outcome Regs) (m' : Result (State × List ℕ))
    (f : Regs → Outcome Regs) (g : State × List ℕ → Result State)
    → SameRound want src m m'
    → Ensures (Continues want st (drop (s + 1) src)) m'
    → s + 1 ≤ length src
    → ((r : Regs) (st' : State)
        → Agrees want r st'
        → IsValid want st'
        → s + 1 ≤ r.s
        → r.s ≤ length src
        → SameEnd want (f r) (g (st', drop r.s src)))
    → SameEnd want (Machine.◌>>=◌ m f) (m' >>= g)
SameEnd-round want s src st (next r) (ok (st', rest)) f g (a, q, l) c h k = rw q (
    k r st' a c.valid
      (omega (
        arith,
        c.shrinks,
        ap (λ (xs : List ℕ). length xs) q,
        length-drop r.s src,
        length-drop (s + 1) src,
      ))
      l)
SameEnd-round want s src st corrupt (err e) f g h c l k = tt
SameEnd-round want s src st (next _) (err _) f g h c l k = elim h [ ]
SameEnd-round want s src st (next _) panic f g h c l k = elim h [ ]
SameEnd-round want s src st (next _) stuck f g h c l k = elim h [ ]
SameEnd-round want s src st corrupt (ok _) f g h c l k = elim h [ ]
SameEnd-round want s src st corrupt panic f g h c l k = elim h [ ]
SameEnd-round want s src st corrupt stuck f g h c l k = elim h [ ]
SameEnd-round want s src st Machine.panic _ f g h c l k = elim h [ ]
SameEnd-round want s src st Machine.stuck _ f g h c l k = elim h [ ]

>>=-assoc :
    {A B C : Type 0} (m : Outcome A) (f : A → Outcome B) (g : B → Outcome C)
    → Machine.◌>>=◌ (Machine.◌>>=◌ m f) g ≡ Machine.◌>>=◌ m (λ a. Machine.◌>>=◌ (f a) g)
>>=-assoc (next a) f g = refl
>>=-assoc corrupt f g = refl
>>=-assoc Machine.panic f g = refl
>>=-assoc Machine.stuck f g = refl

module _ (want : ℕ) (src : List ℕ) (small : want ≤ max_block_size) (short : length src ≤ want)
    (bytes : All IsByte src) where
  checked_loop-SameEnd :
      (fuel : ℕ) (r : Regs) (st : State)
      → Agrees want r st
      → IsValid want st
      → r.s ≤ length src
      → length src ≤ r.s + fuel
      → SameEnd want (checked_loop fuel src r) (run_all want st (drop r.s src))
  unfolding checked_loop
  checked_loop-SameEnd zero r st a v h k =
      let over : ltb r.s (length src) ≡ false = ground arith in
      rw (over, drop-past r.s src (omega arith), run_all-nil want st) a
  checked_loop-SameEnd (suc fuel) r st a v h k = elim (Bool-cases (ltb r.s (length src))) [
    | inr b ↦ rw (b, drop-past r.s src (ltb→le r.s (length src) b), run_all-nil want st) a
    | inl b ↦
        let more = ltb→lt r.s (length src) b in
        let (x, e) = get_elem?-lt src r.s more in
        rw (b, drop-suc r.s src e, run_all-step want x st (drop (r.s + 1) src) v)
          (SameEnd-round want r.s src st _ _ _ _
            (checked_step-SameRound want src small short r st x bytes a v.has_offset e
              (omega arith))
            (step-Continues want x st (drop (r.s + 1) src) v) (omega arith)
            (λ r' st' a' v' p q. checked_loop-SameEnd fuel r' st' a' v' q (omega arith)))
  ]

  -- The first loop, and then the second.
  both_loops-SameEnd :
      (fuel : ℕ) (r : Regs) (st : State)
      → Agrees want r st
      → IsValid want st
      → r.s ≤ length src
      → length src ≤ r.s + fuel
      → SameEnd want
          (Machine.◌>>=◌ (fast_loop fuel src r) (checked_loop (length src) src))
          (run_all want st (drop r.s src))
  unfolding fast_loop
  both_loops-SameEnd zero r st a v h k =
      let over : ltb (r.s + 11) (length src) ≡ false = ground arith in
      rw over (checked_loop-SameEnd (length src) r st a v h (omega arith))
  both_loops-SameEnd (suc fuel) r st a v h k = elim (Bool-cases (ltb (r.s + 11) (length src))) [
    | inr b ↦ rw b (checked_loop-SameEnd (length src) r st a v h (omega arith))
    | inl b ↦
        let more = ltb→lt (r.s + 11) (length src) b in
        let (x, e) = get_elem?-lt src r.s (omega (arith, more)) in
        rw
          (
            b,
            >>=-assoc (fast_step src r) (fast_loop fuel src) (checked_loop (length src) src),
            drop-suc r.s src e,
            run_all-step want x st (drop (r.s + 1) src) v,
          )
          (SameEnd-round want r.s src st _ _ _ _
            (fast_step-SameRound want src small short bytes r st x a v.has_offset e more)
            (step-Continues want x st (drop (r.s + 1) src) v) (omega (arith, more))
            (λ r' st' a' v' p q. both_loops-SameEnd fuel r' st' a' v' q (omega arith)))
  ]

-- The same bytes, or an error on both sides.
abbrev pub SameBlock : Outcome (List ℕ) → Result (List ℕ) → Type 0
SameBlock (next xs) (ok ys) = xs ≡ ys
SameBlock corrupt (err e) = Unit {0}
SameBlock _ _ = ⊥

SameEnd-block :
    (want : ℕ) (m : Outcome Regs) (m' : Result State)
    → SameEnd want m m'
    → SameBlock
        (Machine.◌>>=◌ m (λ r. if r.d == length r.dst then next r.dst else corrupt))
        (m' >>= λ st. if length st.out == want then ok st.out else err Reader.output_size)
SameEnd-block want (next r) (ok st) a =
    let full : length st.out ≡ r.d =
      rw a.out (length-take_le r.d r.dst (omega (arith, a.size, a.within))) in
    rw (full, a.size)
      (elim (Bool-cases (r.d == want)) [
        | inr b ↦ rw b tt
        | inl b ↦
            let all : take r.d r.dst ≡ r.dst =
              take-length r.d r.dst (omega (arith, a.size, (==_iff r.d want).0 b)) in
            rw b (sym (a.out ∙ all))
      ])
SameEnd-block want corrupt (err e) a = tt
SameEnd-block want (next _) (err _) a = elim a [ ]
SameEnd-block want (next _) panic a = elim a [ ]
SameEnd-block want (next _) stuck a = elim a [ ]
SameEnd-block want corrupt (ok _) a = elim a [ ]
SameEnd-block want corrupt panic a = elim a [ ]
SameEnd-block want corrupt stuck a = elim a [ ]
SameEnd-block want Machine.panic _ a = elim a [ ]
SameEnd-block want Machine.stuck _ a = elim a [ ]

-- On every slice of bytes that is no longer than the destination, and every destination that fits a
-- block, minLZDecodeGo fills the destination with what the body loop of DecodeBlock returns for
-- its length, or both report an error. It neither panics nor runs without end, and nothing of the
-- destination's old bytes is left in the result.
pub min_lz_decode-decode_body :
    (dst src : List ℕ)
    → length dst ≤ max_block_size
    → length src ≤ length dst
    → All IsByte src
    → SameBlock (min_lz_decode dst src) (decode_body (length dst) src)
unfolding min_lz_decode decode_body run_all
min_lz_decode-decode_body dst src small short bytes =
    let start : Regs = record { dst = dst; d = 0; s = 0; offset = 1 } in
    let loops =
      both_loops-SameEnd (length dst) src small short bytes (length src) start initial
        (record { size = refl; within = omega arith; out = refl; offset = refl })
        (initial-IsValid (length dst)) (omega arith) (omega arith) in
    rw
      (← >>=-assoc (fast_loop (length src) src start) (checked_loop (length src) src)
        (λ r. if r.d == length r.dst then next r.dst else corrupt))
      (SameEnd-block (length dst)
        (Machine.◌>>=◌ (fast_loop (length src) src start) (checked_loop (length src) src))
        (run (length src) (length dst) initial src) loops)
