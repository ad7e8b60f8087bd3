-- ===== src/Level2/Extend.antt =====
-- The forward extension of encode_l2.go: by words, and by bytes where less than a word is left.
use minlz.Prelude.{ℕ, zero, suc, ◌+◌, ◌/◌, ◌^◌, bit_xor, List, length, ltb, leb, ◌==◌}
use minlz.Prelude.{if◌then◌else◌}
use minlz.Decode.Machine.{Outcome, next, stuck, ◌>>=◌, load8}
use minlz.Level1.Words.{load64, trailing_zeros64}

-- A round at `s`, before the end of the source; `more` goes on.
unfoldable pub extend_round :
    (more : (s candidate : ℕ) → Outcome ℕ) → (src : List ℕ) → (s candidate : ℕ) → Outcome ℕ
unfolding load64
extend_round more src s candidate =
    if ltb (length src) (s + 8)
    then (do
      a ← load8 src s
      b ← load8 src candidate
      if a == b then more (s + 1) (candidate + 1) else next s)
    else (do
      a ← load64 src s
      b ← load64 src candidate
      let diff = bit_xor a b
      if diff == 0 then more (s + 8) (candidate + 8) else next (s + trailing_zeros64 diff / 2 ^ 3))

-- The loop, with fuel: it gives `s`.
unfoldable pub extend_to_end : (fuel : ℕ) (src : List ℕ) (s candidate : ℕ) → Outcome ℕ
unfolding extend_round
extend_to_end zero src s candidate = stuck
extend_to_end (suc n) src s candidate =
    if leb (length src) s then next s else extend_round (extend_to_end n src) src s candidate
