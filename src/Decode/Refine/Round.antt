-- ===== src/Decode/Refine/Round.antt =====
-- One round of the second loop of minLZDecodeGo against one round of the reference decoder.
use minlz.Prelude.{ℕ, ◌+◌, ◌≤◌, ◌<◌, ◌≡◌, sym, ◌∙◌, ap, arith}
use minlz.Prelude.{List, some, All, length, get_elem?, drop, length-drop}
use minlz.Prelude.{leb, ◌==◌, false}
use mathlib.Core.Path.{subst}
use minlz.Bytes.{IsByte}
use minlz.Reference.Reader.{Result, ok, err, panic, stuck, ◌>>=◌, read_n}
use minlz.Reference.Decoder.{
  Command, literals, copy, State, max_block_size, read_command, execute, step,
}
use minlz.Reference.Decoder.{put_literals, put_extra, put_copy}
use minlz.Reference.Reads.{Ensures, Reads, read_command-Reads}
use minlz.Decode.Machine.{Outcome, next, corrupt, Regs, Parsed, do_literals, do_copy2}
use minlz.Decode.Machine
use minlz.Decode.Checked.{checked_parse, checked_extra, checked_execute, checked_step}
use minlz.Decode.Refine.Steps.{Agrees, SameState, do_copy2-put_copy}
use minlz.Decode.Refine.SameParse.{SameParse, SameParse-elim}
use minlz.Decode.Refine.Parse.{checked_parse-SameParse}
use minlz.Decode.Refine.Literals.{Written, SameWrite, literals_SameWrite, checked_extra-SameWrite}

-- Both go on, in states that agree and with the same bytes left, or both stop with an error.
abbrev pub SameRound : (want : ℕ) (src : List ℕ) → Outcome Regs → Result (State × List ℕ) → Type 0
SameRound want src (next r) (ok (st, rest)) =
    Agrees want r st × (rest ≡ drop r.s src) × (r.s ≤ length src)
SameRound want src corrupt (err e) = Unit {0}
SameRound want src _ _ = ⊥

pub SameWrite-bind :
    (want : ℕ) (src : List ℕ) (o p : ℕ) (m : Outcome Regs) (m' : Result (State × List ℕ))
    (f : Regs → Outcome Regs) (g : State × List ℕ → Result (State × List ℕ))
    → SameWrite want src o p m m'
    → ((r : Regs) (st : State) (rest : List ℕ)
        → Written want src o p r st rest
        → SameRound want src (f r) (g (st, rest)))
    → SameRound want src (Machine.◌>>=◌ m f) (m' >>= g)
SameWrite-bind want src o p (next r) (ok (st, rest)) f g h k = k r st rest h
SameWrite-bind want src o p corrupt (err e) f g h k = tt
SameWrite-bind want src o p (next _) (err e) f g h k = elim h [ ]
SameWrite-bind want src o p (next _) panic f g h k = elim h [ ]
SameWrite-bind want src o p (next _) stuck f g h k = elim h [ ]
SameWrite-bind want src o p corrupt (ok _) f g h k = elim h [ ]
SameWrite-bind want src o p corrupt panic f g h k = elim h [ ]
SameWrite-bind want src o p corrupt stuck f g h k = elim h [ ]
SameWrite-bind want src o p Machine.panic _ f g h k = elim h [ ]
SameWrite-bind want src o p Machine.stuck _ f g h k = elim h [ ]

SameWrite-round :
    (want : ℕ) (src : List ℕ) (o : ℕ) (m : Outcome Regs) (m' : Result (State × List ℕ))
    → SameWrite want src o o m m'
    → SameRound want src m m'
SameWrite-round want src o (next r) (ok (st, rest)) h = (
  record { size = h.size; within = h.within; out = h.out; offset = h.reference ∙ sym h.machine },
  h.left,
  h.position,
)
SameWrite-round want src o corrupt (err e) h = tt
SameWrite-round want src o (next _) (err e) h = elim h [ ]
SameWrite-round want src o (next _) panic h = elim h [ ]
SameWrite-round want src o (next _) stuck h = elim h [ ]
SameWrite-round want src o corrupt (ok _) h = elim h [ ]
SameWrite-round want src o corrupt panic h = elim h [ ]
SameWrite-round want src o corrupt stuck h = elim h [ ]
SameWrite-round want src o Machine.panic _ h = elim h [ ]
SameWrite-round want src o Machine.stuck _ h = elim h [ ]

SameState-round :
    (want : ℕ) (src rest : List ℕ) (s : ℕ) (m : Outcome Regs) (m' : Result State)
    → SameState want s m m'
    → rest ≡ drop s src
    → s ≤ length src
    → SameRound want src m (m' >>= λ st. ok (st, rest))
SameState-round want src rest s (next r) (ok st) (a, e) q h =
    (a, q ∙ ap (λ j. drop j src) (sym e), omega (arith, e))
SameState-round want src rest s corrupt (err e) h q k = tt
SameState-round want src rest s (next _) (err e) h q k = elim h [ ]
SameState-round want src rest s (next _) panic h q k = elim h [ ]
SameState-round want src rest s (next _) stuck h q k = elim h [ ]
SameState-round want src rest s corrupt (ok _) h q k = elim h [ ]
SameState-round want src rest s corrupt panic h q k = elim h [ ]
SameState-round want src rest s corrupt stuck h q k = elim h [ ]
SameState-round want src rest s Machine.panic _ h q k = elim h [ ]
SameState-round want src rest s Machine.stuck _ h q k = elim h [ ]

-- The copy behind what the switch and the fused literals did.
pub copy_SameRound :
    (want : ℕ) (src : List ℕ) (o p len : ℕ) (r : Regs) (st : State) (rest : List ℕ)
    → want ≤ max_block_size
    → 1 ≤ o
    → Written want src o p r st rest
    → SameRound want src (do_copy2 r len) (put_copy want o len st >>= λ st'. ok (st', rest))
copy_SameRound want src o p len r st rest small positive w =
    let h = do_copy2-put_copy want len r st small w.size w.within (rw w.machine positive) w.out in
    SameState-round want src rest r.s (do_copy2 r len) (put_copy want o len st)
      (subst (λ j. SameState want r.s (do_copy2 r len) (put_copy want j len st)) w.machine h) w.left
      w.position

module _ (want : ℕ) (src : List ℕ) (small : want ≤ max_block_size) (short : length src ≤ want) where
  -- The literals of a tag 0, and those fused to a copy, for registers and a state that agree.
  literals_round :
      (r : Regs) (st : State) (n t : ℕ)
      → Agrees want r st
      → 1 ≤ t
      → t ≤ length src
      → SameRound want src
          (do_literals src (record r { s = t }) n)
          (put_literals want n st (drop t src))
  literals_round r st n t a p q =
      let m = do_literals src (record r { s = t }) n in
      let h =
        literals_SameWrite src (record r { s = t }) st (omega (arith, a.size))
          (omega (arith, a.size)) (omega (arith, a.size, a.within)) a.out p q n in
      let h' =
        subst (λ w. SameWrite w src r.offset st.offset m (put_literals w n st (drop t src))) a.size
          h in
      SameWrite-round want src r.offset m (put_literals want n st (drop t src)) (
        subst (λ o. SameWrite want src r.offset o m (put_literals want n st (drop t src))) a.offset
          h')

  extra_write :
      (r : Regs) (st : State) (n o t : ℕ)
      → Agrees want r st
      → 1 ≤ t
      → t ≤ length src
      → SameWrite want src o st.offset
          (checked_extra src (record r { s = t; offset = o }) n)
          (put_extra want n st (drop t src))
  extra_write r st n o t a p q =
      subst
        (λ w.
          SameWrite w src o st.offset (checked_extra src (record r { s = t; offset = o }) n)
            (put_extra w n st (drop t src)))
        a.size
        (checked_extra-SameWrite src (record r { s = t; offset = o }) st (omega (arith, a.size))
          (omega (arith, a.size)) (omega (arith, a.size, a.within)) a.out p q n)

  -- A copy whose literals are not there is an error of the reference decoder.
  pub starved :
      (y p k : ℕ) (st : State) (rest : List ℕ)
      → length rest < y
      → SameRound want src corrupt (execute want (copy y p k) st rest)
  unfolding execute put_extra read_n
  starved y p k st rest q =
      let some_left : (y == 0) ≡ false = ground arith in
      let few : leb y (length rest) ≡ false = ground arith in rw (some_left, few) tt

  copy_round :
      (r : Regs) (st : State) (x o n t : ℕ)
      → Agrees want r st
      → 1 ≤ o
      → 1 ≤ t
      → t ≤ length src
      → SameRound want src
          (checked_execute src r (Machine.copy x o n t))
          (execute want (copy x o n) st (drop t src))
  unfolding checked_execute execute
  copy_round r st x o n t a positive p q =
      SameWrite-bind want src o st.offset (checked_extra src (record r { s = t; offset = o }) x)
        (put_extra want x st (drop t src)) (λ r'. do_copy2 r' n)
        (λ w. put_copy want o n w.0 >>= λ st'. ok (st', w.1)) (extra_write r st x o t a p q)
        (λ r' st' rest' w. copy_SameRound want src o st.offset n r' st' rest' small positive w)

  pub literal_round :
      (r : Regs) (st : State) (n t : ℕ)
      → Agrees want r st
      → 1 ≤ t
      → t ≤ length src
      → SameRound want src
          (checked_execute src r (Machine.literals n t))
          (execute want (literals n) st (drop t src))
  unfolding checked_execute execute
  literal_round r st n t a p q = literals_round r st n t a p q

  -- A position that leaves no more than `drop (s + 1) src` stands behind `s`.
  pub behind :
      (s t : ℕ)
      → s + 1 ≤ length src
      → t ≤ length src
      → length (drop t src) ≤ length (drop (s + 1) src)
      → 1 ≤ t
  behind s t h l x = omega (arith, x, length-drop t src, length-drop (s + 1) src)

  -- Behind a command that both switches read.
  execute-SameRound :
      (r : Regs) (st : State) (s : ℕ) (m : Outcome Parsed) (m' : Result (Command × List ℕ))
      → Agrees want r st
      → s + 1 ≤ length src
      → SameParse src m m'
      → Ensures (Reads (drop (s + 1) src)) m'
      → SameRound want src
          (Machine.◌>>=◌ m (checked_execute src r))
          (m' >>= λ c. execute want c.0 st c.1)
  execute-SameRound r st s m m' a h =
      SameParse-elim src
        (λ m m'.
          Ensures (Reads (drop (s + 1) src)) m'
          → SameRound want src (Machine.◌>>=◌ m (checked_execute src r))
              (m' >>= λ c. execute want c.0 st c.1))
        (λ n t l x. literal_round r st n t a (behind s t h l x.1.0) l)
        (λ y o n t l x. copy_round r st y o n t a x.0.0 (behind s t h l x.1.0) l) (λ e x. tt)
        (λ y o n rest q x. starved y o n st rest q) m m'

  -- A round of the second loop, with the byte `v` at `r.s`.
  pub checked_step-SameRound :
      (r : Regs) (st : State) (v : ℕ)
      → All IsByte src
      → Agrees want r st
      → 1 ≤ st.offset
      → get_elem? src r.s ≡ some v
      → r.s + 1 ≤ length src
      → SameRound want src (checked_step src r) (step want v st (drop (r.s + 1) src))
  unfolding checked_step step
  checked_step-SameRound r st v bytes a positive e h =
      execute-SameRound r st r.s (checked_parse src r.s r.offset)
        (read_command v st.offset (drop (r.s + 1) src)) a h
        (subst
          (λ o.
            SameParse src (checked_parse src r.s o) (read_command v st.offset (drop (r.s + 1) src)))
          a.offset (checked_parse-SameParse src bytes r.s v st.offset e h))
        (read_command-Reads v st.offset (drop (r.s + 1) src) positive)
