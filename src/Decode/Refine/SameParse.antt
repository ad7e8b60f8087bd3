-- ===== src/Decode/Refine/SameParse.antt =====
-- What it means that the two switches read the same operation.
use minlz.Prelude.{ℕ, ◌≤◌, ◌<◌, ◌≡◌, sym}
use minlz.Prelude.{List, length, drop}
use minlz.Reference.Reader.{Error, Result, ok, err, panic, stuck, ◌>>=◌}
use minlz.Reference.Decoder.{Command, literals, copy}
use minlz.Decode.Machine.{Outcome, next, corrupt, load8, load16, load32, Parsed}
use minlz.Decode.Machine
use minlz.Decode.Refine.Windows.{SameLength}

-- The same operation, and the same position behind it; or no operation on either side. The last
-- case is a copy whose literals are not there: the reference decoder sees that later.
abbrev pub SameParse : (src : List ℕ) → Outcome Parsed → Result (Command × List ℕ) → Type 0
SameParse src (next (Machine.literals n s)) (ok (literals m, rest)) =
    (n ≡ m) × (rest ≡ drop s src) × (s ≤ length src)
SameParse src (next (Machine.copy x o n s)) (ok (copy y p m, rest)) =
    (x ≡ y) × (o ≡ p) × (n ≡ m) × (rest ≡ drop s src) × (s ≤ length src)
SameParse src corrupt (err e) = Unit {0}
SameParse src corrupt (ok (copy y p m, rest)) = length rest < y
SameParse src _ _ = ⊥

-- The cases of `SameParse`, with what is the same named once.
pub SameParse-elim :
    (src : List ℕ) (P : Outcome Parsed → Result (Command × List ℕ) → Type 0)
    → ((n s : ℕ) → s ≤ length src → P (next (Machine.literals n s)) (ok (literals n, drop s src)))
    → ((x o n s : ℕ)
        → s ≤ length src
        → P (next (Machine.copy x o n s)) (ok (copy x o n, drop s src)))
    → ((e : Error) → P corrupt (err e))
    → ((x o n : ℕ) (rest : List ℕ) → length rest < x → P corrupt (ok (copy x o n, rest)))
    → (m : Outcome Parsed) (m' : Result (Command × List ℕ)) → SameParse src m m'
    → P m m'
SameParse-elim src P f g e x (next (Machine.literals n s)) (ok (literals m, rest)) (p, q, h) =
    rw (← p, q) (f n s h)
SameParse-elim src P f g e x (next (Machine.copy a o n s)) (ok (copy b p m, rest)) (j, k, l, q, h) =
    rw (← j, ← k, ← l, q) (g a o n s h)
SameParse-elim src P f g e x corrupt (err i) h = e i
SameParse-elim src P f g e x corrupt (ok (copy a o n, rest)) h = x a o n rest h
SameParse-elim src P f g e x (next (Machine.literals _ _)) (ok (copy _ _ _, _)) h = elim h [ ]
SameParse-elim src P f g e x (next (Machine.literals _ _)) (err _) h = elim h [ ]
SameParse-elim src P f g e x (next (Machine.literals _ _)) panic h = elim h [ ]
SameParse-elim src P f g e x (next (Machine.literals _ _)) stuck h = elim h [ ]
SameParse-elim src P f g e x (next (Machine.copy _ _ _ _)) (ok (literals _, _)) h = elim h [ ]
SameParse-elim src P f g e x (next (Machine.copy _ _ _ _)) (err _) h = elim h [ ]
SameParse-elim src P f g e x (next (Machine.copy _ _ _ _)) panic h = elim h [ ]
SameParse-elim src P f g e x (next (Machine.copy _ _ _ _)) stuck h = elim h [ ]
SameParse-elim src P f g e x corrupt (ok (literals _, _)) h = elim h [ ]
SameParse-elim src P f g e x corrupt panic h = elim h [ ]
SameParse-elim src P f g e x corrupt stuck h = elim h [ ]
SameParse-elim src P f g e x Machine.panic _ h = elim h [ ]
SameParse-elim src P f g e x Machine.stuck _ h = elim h [ ]

-- Behind a length that is read alike.
pub SameParse-length :
    (src : List ℕ) (m : Outcome (ℕ × ℕ)) (m' : Result (ℕ × List ℕ)) (f : ℕ × ℕ → Outcome Parsed)
    (g : ℕ × List ℕ → Result (Command × List ℕ))
    → SameLength src m m'
    → ((n s : ℕ) → s ≤ length src → SameParse src (f (n, s)) (g (n, drop s src)))
    → SameParse src (Machine.◌>>=◌ m f) (m' >>= g)
SameParse-length src (next (n, s)) (ok (m, rest)) f g (p, q, h) k = rw (sym p, q) (k n s h)
SameParse-length src corrupt (err e) f g h k = tt
SameParse-length src (next _) (err e) f g h k = elim h [ ]
SameParse-length src (next _) panic f g h k = elim h [ ]
SameParse-length src (next _) stuck f g h k = elim h [ ]
SameParse-length src corrupt (ok _) f g h k = elim h [ ]
SameParse-length src corrupt panic f g h k = elim h [ ]
SameParse-length src corrupt stuck f g h k = elim h [ ]
SameParse-length src Machine.panic _ f g h k = elim h [ ]
SameParse-length src Machine.stuck _ f g h k = elim h [ ]
