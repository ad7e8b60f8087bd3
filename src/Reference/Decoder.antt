-- ===== src/Reference/Decoder.antt =====
-- DecodeBlock (internal/reference/decoder.go): the header, one operation, the loop.
-- An operation is read in two steps, as the code does: the tag with its length and offset, then
-- the literals and the copy that it asks for.
use minlz.Prelude.{ℕ, zero, suc, ◌+◌, ◌-◌, ◌*◌, ◌/◌, ◌%◌, ◌^◌, bit_or}
use minlz.Prelude.{List, [], ◌∷◌, ◌++◌, Option, none, some, Bool, ◌&&◌}
use minlz.Prelude.{length, get_elem?, ltb, leb, ◌==◌, if◌then◌else◌}
use minlz.Reference.Reader.{Error, Result, ok, err, panic, stuck, ◌>>=◌, require}
use minlz.Reference.Reader.{literal_length, literals_exceed_dst, literals_exceed_src}
use minlz.Reference.Reader.{copy1_offset, copy1_length, copy2_offset, copy2_length, fused_offset}
use minlz.Reference.Reader.{copy3_value, copy3_length, extra_literals, extra_exceed_dst}
use minlz.Reference.Reader.{copy_exceeds_dst, offset_exceeds_dst, output_size}
use minlz.Reference.Reader.{read_one, read_two, read_three, read_n}

abbrev pub max_block_size : ℕ
max_block_size = 8388608

-- What a tag asks for: literals, or `extra` literals and then a copy.
pub data Command : Type 0 where
  literals : ℕ → Command
  copy : (extra offset len : ℕ) → Command

-- A length whose code reaches `from` goes on in 1, 2 or 3 more bytes, added to `base`.
unfoldable pub extended : Error → (code from base : ℕ) → List ℕ → Result (ℕ × List ℕ)
unfolding read_one read_two read_three
extended e code from base src = do
  (n, src') ← require e (
      if code == from
      then read_one src
      else if code == from + 1
      then read_two src
      else read_three src)
  ok (n + base, src')

-- case 0: literals, or a repeat of the last offset.
unfoldable pub read_literal_tag : (value offset : ℕ) → List ℕ → Result (Command × List ℕ)
unfolding extended
read_literal_tag value offset src = do
  let code = value / 2
  (len, src') ← if ltb code 29 then ok (code + 1, src) else extended literal_length code 29 30 src
  ok ((if value % 2 == 1 then copy 0 offset len else literals len), src')

-- case 1: a copy with a 10 bit offset.
unfoldable pub read_copy1 : ℕ → List ℕ → Result (Command × List ℕ)
unfolding read_one
read_copy1 value src = do
  (high, src') ← require copy1_offset (read_one src)
  let offset = bit_or (high * 2 ^ 2) (value / 2 ^ 4)
  (len, src'') ←
      if value % 16 == 15
      then (do (n, rest) ← require copy1_length (read_one src'); ok (n + 18, rest))
      else ok (value % 16 + 4, src')
  ok (copy 0 (offset + 1) len, src'')

-- case 2: a copy with a 16 bit offset.
unfoldable pub read_copy2 : ℕ → List ℕ → Result (Command × List ℕ)
unfolding read_two extended
read_copy2 value src = do
  (offset, src') ← require copy2_offset (read_two src)
  (len, src'') ←
      if leb value 60 then ok (value + 4, src') else extended copy2_length value 61 64 src'
  ok (copy 0 (offset + 64) len, src'')

-- case 3 with bit 2 of the tag clear: 1 to 4 literals fused with a short copy.
unfoldable pub read_fused : ℕ → List ℕ → Result (Command × List ℕ)
unfolding read_two
read_fused value src = do
  (offset, src') ← require fused_offset (read_two src)
  ok (copy (value / 2 % 4 + 1) (offset + 64) (value / 2 ^ 3 + 4), src')

-- case 3 with bit 2 of the tag set: up to 3 literals and a copy with a 21 bit offset.
unfoldable pub read_copy3 : ℕ → List ℕ → Result (Command × List ℕ)
unfolding read_three extended
read_copy3 value src = do
  (v2, src') ← require copy3_value (read_three src)
  let word = bit_or value (v2 * 2 ^ 6)
  let code = word / 2 ^ 3 % 64
  (len, src'') ← if ltb code 61 then ok (code + 4, src') else extended copy3_length code 61 64 src'
  ok (copy (value / 2 % 4) (word / 2 ^ 9 + 65536) len, src'')

-- The switch on the tag, the lower two bits of `v`.
unfoldable pub read_command : (v offset : ℕ) → List ℕ → Result (Command × List ℕ)
unfolding read_literal_tag read_copy1 read_copy2 read_fused read_copy3
read_command v offset src =
    let value = v / 2 ^ 2 in
    if v % 4 == 0
    then read_literal_tag value offset src
    else if v % 4 == 1
    then read_copy1 value src
    else if v % 4 == 2
    then read_copy2 value src
    else if value % 2 == 1
    then read_copy3 value src
    else read_fused value src

-- checkDstSize
unfoldable pub check_dst_size : (want : ℕ) → List ℕ → ℕ → Bool
check_dst_size want dst n = ltb n max_block_size && leb (length dst + n) want

-- `for i := 0; i < length; i++ { dst = append(dst, dst[inPos+i]) }`, with the rounds left first.
-- `none` is a read outside of `dst`.
unfoldable pub copy_loop : (rounds position : ℕ) → List ℕ → Option (List ℕ)
copy_loop zero position dst = some dst
copy_loop (suc n) position dst = elim (get_elem? dst position) [
  | none ↦ none
  | some b ↦ copy_loop n (position + 1) (dst ++ (b ∷ []))
]

-- The decoder between two operations: the output, and the offset that a repeat uses.
pub record State : Type 0 where
  pub out : List ℕ
  pub offset : ℕ

-- The literals of a command: checked against the destination first.
unfoldable pub put_literals : (want : ℕ) → ℕ → State → List ℕ → Result (State × List ℕ)
unfolding check_dst_size read_n
put_literals want n st src =
    if check_dst_size want st.out n
    then (do
      (input, src') ← require literals_exceed_src (read_n n src)
      ok (record st { out = st.out ++ input }, src'))
    else err literals_exceed_dst

-- The literals that precede a copy: read first.
unfoldable pub put_extra : (want : ℕ) → ℕ → State → List ℕ → Result (State × List ℕ)
unfolding check_dst_size read_n
put_extra want n st src = if n == 0 then ok (st, src) else (do
  (input, src') ← require extra_literals (read_n n src)
  if check_dst_size want st.out n
      then ok (record st { out = st.out ++ input }, src')
      else err extra_exceed_dst)

-- The copy, which may overlap what it appends.
unfoldable pub put_copy : (want : ℕ) → (offset len : ℕ) → State → Result State
unfolding check_dst_size copy_loop
put_copy want offset len st =
    if check_dst_size want st.out len
    then if ltb (length st.out) offset
      then err offset_exceeds_dst
      else elim (copy_loop len (length st.out - offset) st.out) [
        | none ↦ panic
        | some out ↦ ok (record { out = out; offset = offset })
      ]
    else err copy_exceeds_dst

unfoldable pub execute : (want : ℕ) → Command → State → List ℕ → Result (State × List ℕ)
unfolding put_literals put_extra put_copy
execute want (literals n) st src = put_literals want n st src
execute want (copy extra offset len) st src = do
  (st', src') ← put_extra want extra st src
  st'' ← put_copy want offset len st'
  ok (st'', src')

-- One round of `for len(src) > 0`, which starts by reading the byte `v`.
unfoldable pub step : (want v : ℕ) → State → List ℕ → Result (State × List ℕ)
unfolding read_command execute
step want v st src = do (c, src') ← read_command v st.offset src; execute want c st src'

-- The loop, with fuel: each round takes a byte at least, so `length src` rounds are enough.
unfoldable pub run : (fuel want : ℕ) → State → List ℕ → Result State
run fuel want st [] = ok st
run zero want st (v ∷ src) = stuck
run (suc fuel) want st (v ∷ src) = do (st', src') ← step want v st src; run fuel want st' src'

abbrev pub initial : State
initial = record { out = []; offset = 1 }

-- The loop and the check of the size at its end.
unfoldable pub decode_body : (want : ℕ) → List ℕ → Result (List ℕ)
decode_body want src = do
  st ← run (length src) want initial src
  if length st.out == want then ok st.out else err output_size
