-- ===== src/Writer/Frame.antt =====
-- calcSkippableFrame, skippableFrame and makeHeader of writer.go. What was written is a ℕ far below
-- 2^63, and `read_full` is io.ReadFull of the padding's source: so many bytes, or an error.
use minlz.Prelude.{ℕ, zero, suc, ◌+◌, ◌-◌, ◌/◌, ◌%◌, ◌^◌, List, [], ◌∷◌, ◌++◌, Option, none}
use minlz.Prelude.{some, ltb, leb, ◌==◌, if◌then◌else◌}
use minlz.Bytes.{u8, put24}
use minlz.Decode.Machine.{Outcome, next, panic, stuck}
use minlz.Reference.Decoder.{max_block_size}

-- The loop that adds `want_multiple` while there is no room for a header, with fuel.
unfoldable pub at_least : (fuel want_multiple to_add : ℕ) → Outcome ℕ
at_least zero want_multiple to_add = if ltb to_add 4 then stuck else next to_add
at_least (suc n) want_multiple to_add =
    let more = at_least n want_multiple (to_add + want_multiple) in
    if ltb to_add 4 then more else next to_add

unfoldable pub calc_skippable_frame : (written want_multiple : ℕ) → Outcome ℕ
unfolding at_least
calc_skippable_frame written want_multiple =
    if want_multiple == 0
    then panic
    else if written % want_multiple == 0
    then next 0
    else at_least 4 want_multiple (want_multiple - written % want_multiple)

-- The results of skippableFrame: what was appended to, or one of its errors.
pub data Framed : Type 0 where
  framed : List ℕ → Framed
  too_short too_long unread : Framed

unfoldable pub skippable_frame :
    (read_full : ℕ → Option (List ℕ)) → (dst : List ℕ) → (total : ℕ) → Framed
skippable_frame read_full dst total =
    if total == 0
    then framed dst
    else if ltb total 4
    then too_short
    else if leb (max_block_size + 4) total
    then too_long
    else elim (read_full (total - 4)) [
      | none ↦ unread
      | some bytes ↦ framed (dst ++ (254 ∷ (put24 (total - 4) ++ bytes)))
    ]

-- bits.Len of math/bits, for a number of at most `bits` bits.
unfoldable pub bits_len : (bits x : ℕ) → ℕ
bits_len zero x = 0
bits_len (suc n) x = let more = suc (bits_len n (x / 2)) in if x == 0 then 0 else more

unfoldable pub make_header : (block_size : ℕ) → List ℕ
unfolding bits_len
make_header block_size =
    let bits = bits_len 64 ((block_size + (2 ^ 64 - 1)) % 2 ^ 64) in
    255 ∷ 6 ∷ 0 ∷ 0 ∷ 77 ∷ 105 ∷ 110 ∷ 76 ∷ 122 ∷ u8 (bits + (256 - 10)) ∷ []
