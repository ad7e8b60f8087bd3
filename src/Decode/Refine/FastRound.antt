-- ===== src/Decode/Refine/FastRound.antt =====
-- One round of the first loop of minLZDecodeGo against one round of the reference decoder.
use minlz.Prelude.{ℕ, ◌+◌, ◌-◌, ◌*◌, ◌≤◌, ◌<◌, ◌≡◌, sym, arith}
use minlz.Prelude.{List, some, All, length, get_elem?, drop, length-drop}
use minlz.Prelude.{ltb, ◌==◌, Bool-cases, inl, inr, ltb→lt, ltb→le}
use mathlib.Core.Path.{subst}
use minlz.Bytes.{IsByte}
use minlz.Decode.Machine.{Outcome, next, corrupt, Regs, Parsed, load8, load32, store32, splice}
use minlz.Decode.Machine
use minlz.Decode.Machine.{do_copy, do_copy2, do_literals}
use minlz.Decode.Fast.{fast_extra, fast_execute, fast_parse, fast_step}
use minlz.Decode.Checked.{checked_execute}
use minlz.Reference.Reader.{Result, ok, ◌>>=◌}
use minlz.Reference.Decoder.{
  Command, literals, copy, State, max_block_size, execute, step, read_command,
}
use minlz.Reference.Decoder.{put_extra, put_copy}
use minlz.Reference.Reads.{Ensures, Reads, read_command-Reads}
use minlz.Decode.Refine.Steps.{Agrees}
use minlz.Decode.Refine.SameParse.{SameParse, SameParse-elim}
use minlz.Decode.Refine.Parse.{checked_parse-SameParse}
use minlz.Decode.Refine.Literals.{SameWrite}
use minlz.Decode.Refine.Round.{
  SameRound, SameWrite-bind, copy_SameRound, literal_round, behind, starved,
}
use minlz.Decode.Refine.FastParse.{fast_parse-checked_parse}
use minlz.Decode.Refine.FastWrite.{
  do_copy2_lem, fast_extra_write, overflow, no_extra_write, no_room,
}

module _ (want : ℕ) (src : List ℕ) (small : want ≤ max_block_size) (short : length src ≤ want)
    (bytes : All IsByte src) where
  -- The copy behind the literals.
  copy_behind :
      (r : Regs) (st : State) (x o n t : ℕ)
      → 1 ≤ o
      → SameWrite want src o st.offset
          (fast_extra src (record r { s = t; offset = o }) x)
          (put_extra want x st (drop t src))
      → SameRound want src
          (fast_execute src r (Machine.copy x o n t))
          (execute want (copy x o n) st (drop t src))
  unfolding fast_execute execute
  copy_behind r st x o n t positive h =
      SameWrite-bind want src o st.offset (fast_extra src (record r { s = t; offset = o }) x)
        (put_extra want x st (drop t src)) (λ r'. do_copy r' n)
        (λ w. put_copy want o n w.0 >>= λ st'. ok (st', w.1)) h
        (λ r' st' rest' w.
          rw (← do_copy2_lem r' n (omega (arith, w.machine)))
            (copy_SameRound want src o st.offset n r' st' rest' small positive w))

  fast_copy_round :
      (r : Regs) (st : State) (x o n t : ℕ)
      → Agrees want r st
      → 1 ≤ o
      → 1 ≤ t
      → t + 4 ≤ length src
      → x ≤ 4
      → x ≤ 4 * (n - 3)
      → SameRound want src
          (fast_execute src r (Machine.copy x o n t))
          (execute want (copy x o n) st (drop t src))
  unfolding fast_execute
  fast_copy_round r st x o n t a positive p q few enough = elim (Bool-cases (x == 0)) [
    | inl z ↦
        copy_behind r st x o n t positive
          (no_extra_write want src small short bytes r st x o t a (omega arith) z)
    | inr z ↦
        let some_lits : 1 ≤ x = ground arith in
        elim (Bool-cases (ltb want (r.d + 4))) [
          | inl k ↦
              let full = ltb→lt want (r.d + 4) k in
              rw
                (no_room want src small short bytes (record r { s = t; offset = o }) x z
                  (omega (arith, a.size, full)))
                (overflow want src small short bytes r st x o n (drop t src) a some_lits
                  (omega arith) full)
          | inr k ↦ copy_behind r st x o n t positive (
              fast_extra_write want src small short bytes r st x o t a some_lits few p q
                (ltb→le want (r.d + 4) k))
        ]
  ]

  fast_literal_round :
      (r : Regs) (st : State) (n t : ℕ)
      → Agrees want r st
      → 1 ≤ t
      → t ≤ length src
      → SameRound want src
          (fast_execute src r (Machine.literals n t))
          (execute want (literals n) st (drop t src))
  unfolding fast_execute
  fast_literal_round r st n t a p q =
      unfold checked_execute in literal_round want src small short r st n t a p q

  -- Behind a command that both switches read.
  fast_execute-SameRound :
      (r : Regs) (st : State) (s : ℕ) (m : Outcome Parsed) (m' : Result (Command × List ℕ))
      → Agrees want r st
      → s + 11 < length src
      → SameParse src m m'
      → Ensures (Reads (drop (s + 1) src)) m'
      → SameRound want src
          (Machine.◌>>=◌ m (fast_execute src r))
          (m' >>= λ c. execute want c.0 st c.1)
  fast_execute-SameRound r st s m m' a h =
      let near : s + 1 ≤ length src = omega arith in
      SameParse-elim src
        (λ m m'.
          Ensures (Reads (drop (s + 1) src)) m'
          → SameRound want src (Machine.◌>>=◌ m (fast_execute src r))
              (m' >>= λ c. execute want c.0 st c.1))
        (λ n t l x. fast_literal_round r st n t a (behind want src small short s t near l x.1.0) l)
        (λ y o n t l x.
          fast_copy_round r st y o n t a x.0.0 (behind want src small short s t near l x.1.0)
            (omega (arith, x, length-drop t src, length-drop (s + 1) src)) x.0.2 x.0.3)
        (λ e x. tt) (λ y o n rest q x. starved want src small short y o n st rest q) m m'

  -- A round of the first loop, with twelve bytes left and the byte `v` at `r.s`.
  pub fast_step-SameRound :
      (r : Regs) (st : State) (v : ℕ)
      → Agrees want r st
      → 1 ≤ st.offset
      → get_elem? src r.s ≡ some v
      → r.s + 11 < length src
      → SameRound want src (fast_step src r) (step want v st (drop (r.s + 1) src))
  unfolding fast_step step
  fast_step-SameRound r st v a positive e h =
      let parsed =
        subst (λ m. SameParse src m (read_command v st.offset (drop (r.s + 1) src)))
          (sym (fast_parse-checked_parse src bytes r.s st.offset h))
          (checked_parse-SameParse src bytes r.s v st.offset e (omega arith)) in
      fast_execute-SameRound r st r.s (fast_parse src r.s r.offset)
        (read_command v st.offset (drop (r.s + 1) src)) a h
        (subst
          (λ o.
            SameParse src (fast_parse src r.s o) (read_command v st.offset (drop (r.s + 1) src)))
          a.offset parsed)
        (read_command-Reads v st.offset (drop (r.s + 1) src) positive)
