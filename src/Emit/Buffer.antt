-- ===== src/Emit/Buffer.antt =====
-- The stores of unsafe_disabled.go, slices of a buffer and the built-in copy.
use minlz.Prelude.{ℕ, ◌+◌, ◌-◌, min, List, length, set, take, drop, ◌++◌, ltb, leb, if◌then◌else◌}
use minlz.Bytes.{put16}
use minlz.Decode.Machine.{Outcome, next, panic, ◌>>=◌, splice}

-- b[i] = v
abbrev pub store8 : (b : List ℕ) (i v : ℕ) → Outcome (List ℕ)
store8 b i v = if leb (length b) i then panic else next (set b i v)

-- store16 of unsafe_disabled.go, for a v of 16 bits.
unfoldable pub store16 : (b : List ℕ) (i v : ℕ) → Outcome (List ℕ)
unfolding splice
store16 b i v = if ltb (length b) (i + 2) then panic else next (splice b i (put16 v))

-- A call on `b[n:]`, which writes to `b` from `n` on; the counts are added.
unfoldable pub on_tail :
    (b : List ℕ) (n : ℕ) → (List ℕ → Outcome (List ℕ × ℕ)) → Outcome (List ℕ × ℕ)
on_tail b n f =
    if ltb (length b) n then panic else (do (b', m) ← f (drop n b); next (take n b ++ b', n + m))

-- `n + copy(b[n:], xs)`
unfoldable pub copy_into : (b : List ℕ) (n : ℕ) (xs : List ℕ) → Outcome (List ℕ × ℕ)
unfolding splice
copy_into b n xs =
    let m = min (length b - n) (length xs) in
    if ltb (length b) n then panic else next (splice b n (take m xs), n + m)
