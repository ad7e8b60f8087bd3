-- ===== src/Reference/Encoder.antt =====
-- EncodeBlock and encodeBlock (internal/reference/encoder.go).
use minlz.Prelude.{ℕ, zero, suc, ◌+◌, ◌-◌, ◌*◌, ◌/◌, ◌%◌, ◌^◌, bit_or}
use minlz.Prelude.{List, [], ◌∷◌, ◌++◌, Option, none, some, Bool, true, false, ◌&&◌, ◌||◌}
use minlz.Prelude.{length, get_elem?, take, drop, ltb, leb, ◌==◌, if◌then◌else◌}
use minlz.Bytes.{u8, u32, le32}
use minlz.Reference.Reader.{Result, ok, panic, stuck, ◌>>=◌}
use minlz.Reference.Decoder.{max_block_size}
use minlz.Reference.Emit.{emit_literals, emit_repeat, emit_copy1, emit_copy2, emit_copy3}
use minlz.Reference.Emit.{emit_copy_lits2}

-- An index out of range panics.
abbrev pub index {ℓ} : {A : Type ℓ} → Option A → Result A
index none = panic
index (some a) = ok a

-- binary.LittleEndian.Uint32(src[i:])
unfoldable pub load32 : List ℕ → ℕ → Result ℕ
unfolding le32
load32 src i = do
  a ← index (get_elem? src i)
  b ← index (get_elem? src (i + 1))
  c ← index (get_elem? src (i + 2))
  d ← index (get_elem? src (i + 3))
  ok (le32 a b c d)

-- The table of 2^16 positions, all 0 at first.
abbrev pub Table : Type 0
Table = ℕ → ℕ

unfoldable pub put : Table → ℕ → ℕ → Table
put table h s k = if k == h then s else table k

-- With `h` = 16.
unfoldable pub hash4 : ℕ → ℕ
hash4 u = u32 (u * 2654435761) / 2 ^ ((32 - 16) % 32)

-- What the search for a match ends with.
pub data Search : Type 0 where
  remainder : Search
  found : (s candidate : ℕ) (table : Table) → Search

-- The inner loop at position `s`, with fuel. The guard `candidate >= minSrcPos`, where
-- minSrcPos is s - (2 << 20) - 65535 and may be negative, is written without a subtraction.
unfoldable pub search_match : (fuel : ℕ) (src : List ℕ) (s : ℕ) → Table → Result Search
unfolding load32 put hash4
search_match zero src s table = stuck
search_match (suc fuel) src s table = if ltb (length src) (s + 4) then ok remainder else (do
  cv ← load32 src s
  let candidate = table (hash4 cv)
  let table' = put table (hash4 cv) s
  let rest = search_match fuel src (s + 1) table'
  if leb s (candidate + (2 * 2 ^ 20 + 65535))
      then (do cc ← load32 src candidate; if cv == cc then ok (found s candidate table') else rest)
      else rest)

-- `for s < len(src) { if src[s] != src[candidate] { break }; candidate++; s++ }`, with the bytes
-- left first.
unfoldable pub extend : (left : ℕ) (src : List ℕ) (s candidate : ℕ) → Result ℕ
extend zero src s candidate = ok s
extend (suc n) src s candidate = do
  a ← index (get_elem? src s)
  b ← index (get_elem? src candidate)
  let rest = extend n src (s + 1) (candidate + 1)
  if a == b then rest else ok s

-- `for base < s { table[hash4(src[base:])] = base; base++ }`, with the rounds left first.
unfoldable pub index_match : (left : ℕ) (src : List ℕ) (base : ℕ) → Table → Result Table
unfolding load32 put hash4
index_match zero src base table = ok table
index_match (suc n) src base table = do
  cv ← load32 src base
  index_match n src (base + 1) (put table (hash4 cv) base)

-- `canFuse`
abbrev pub can_fuse : (lits offset : ℕ) → Bool
can_fuse lits offset = (leb lits 3 || (leb offset (65535 + 64) && leb lits 4)) && leb 64 offset

-- The literals that stand before a match, and whether the copy was fused with them. `none` is the
-- bail out when the limit is exceeded.
unfoldable pub emit_pending :
    (dst_limit : ℕ) (dst lits : List ℕ) (offset len : ℕ) → Result (Option (List ℕ × Bool))
emit_pending dst_limit dst lits offset len =
    if length lits == 0
    then ok (some (dst, false))
    else if can_fuse (length lits) offset
    then if leb offset (65535 + 64)
      then ok (some (emit_copy_lits2 dst lits offset len, true))
      else (do dst' ← emit_copy3 dst offset len lits; ok (some (dst', true)))
    else if ltb dst_limit (length dst + length lits)
    then ok none
    else ok (some (emit_literals dst lits, false))

-- The copy, unless it was fused.
unfoldable pub emit_match : (dst : List ℕ) (repeat offset len : ℕ) → Result (List ℕ)
emit_match dst repeat offset len =
    if offset == repeat
    then ok (emit_repeat dst len)
    else if leb offset 1024
    then ok (emit_copy1 dst offset len)
    else if leb offset (65535 + 64)
    then emit_copy2 dst offset len
    else emit_copy3 dst offset len []

-- src[lo:hi]
abbrev pub slice : List ℕ → (lo hi : ℕ) → List ℕ
slice src lo hi = take (hi - lo) (drop lo src)

-- emitRemainder; `none` is the nil that says "not compressible".
unfoldable pub emit_remainder :
    (dst_limit : ℕ) (src : List ℕ) (next_emit : ℕ) (dst : List ℕ) → Option (List ℕ)
emit_remainder dst_limit src next_emit dst =
    if ltb next_emit (length src)
    then if ltb dst_limit (length dst + length src - next_emit)
      then none
      else some (emit_literals dst (drop next_emit src))
    else some dst

-- The variables of the outer loop.
pub record Loop : Type 0 where
  pub dst : List ℕ
  pub table : Table
  pub s : ℕ
  pub next_emit : ℕ
  pub repeat : ℕ

-- Everything that is emitted for the match of `src[base:s]` at `offset`.
unfoldable pub emit_found :
    (dst_limit : ℕ) (src : List ℕ) → Loop → (base offset s : ℕ) → Result (Option (List ℕ))
emit_found dst_limit src l base offset s = do
  pending ← emit_pending dst_limit l.dst (slice src l.next_emit base) offset (s - base)
  elim pending [
    | none ↦ ok none
    | some (dst, fused) ↦
        if fused
        then ok (some dst)
        else (do dst' ← emit_match dst l.repeat offset (s - base); ok (some dst'))
  ]

-- From `repeat = offset` on, after a match was emitted; `again` is the next round.
unfoldable pub after_emitted :
    (again : Loop → Result (Option (List ℕ))) (dst_limit : ℕ) (src : List ℕ) (base offset s : ℕ)
    → Table
    → Option (List ℕ)
    → Result (Option (List ℕ))
after_emitted again dst_limit src base offset s table none = ok none
after_emitted again dst_limit src base offset s table (some dst) =
    if ltb (length src) (s + 4)
    then ok (emit_remainder dst_limit src s dst)
    else if ltb dst_limit (length dst)
    then ok none
    else (do
      table' ← index_match (s - (base + 1)) src (base + 1) table
      again (record { dst = dst; table = table'; s = s; next_emit = s; repeat = offset }))

-- From the end of the search on.
unfoldable pub after_search :
    (again : Loop → Result (Option (List ℕ))) (dst_limit : ℕ) (src : List ℕ)
    → Loop
    → Search
    → Result (Option (List ℕ))
after_search again dst_limit src l remainder = ok (emit_remainder dst_limit src l.next_emit l.dst)
after_search again dst_limit src l (found base candidate table) = do
  s ← extend (length src - (base + 4)) src (base + 4) (candidate + 4)
  emitted ← emit_found dst_limit src l base (base - candidate) s
  after_emitted again dst_limit src base (base - candidate) s table emitted

-- The outer loop, with fuel.
unfoldable pub encode_loop : (fuel dst_limit : ℕ) (src : List ℕ) → Loop → Result (Option (List ℕ))
encode_loop zero dst_limit src l = stuck
encode_loop (suc fuel) dst_limit src l = do
  hit ← search_match (length src) src l.s l.table
  after_search (encode_loop fuel dst_limit src) dst_limit src l hit

unfoldable pub encode_body : (dst src : List ℕ) → Result (Option (List ℕ))
encode_body dst src =
    encode_loop (length src) (length src + length dst - 11) src
      (record { dst = dst; table = λ _. 0; s = 1; next_emit = 0; repeat = 1 })

unfoldable pub encode_uncompressed : (dst src : List ℕ) → List ℕ
encode_uncompressed dst [] = dst ++ (0 ∷ [])
encode_uncompressed dst (b ∷ src) = (dst ++ (0 ∷ 0 ∷ [])) ++ (b ∷ src)

-- MaxEncodedLen; `none` is the negative result. A length is never negative.
unfoldable pub max_encoded_len : ℕ → Option ℕ
max_encoded_len n = if ltb max_block_size n then none else if n == 0 then some 1 else some (n + 2)

-- binary.AppendUvarint, by the rounds that are left; nine are enough below 2^64.
unfoldable pub append_uvarint : (rounds : ℕ) → List ℕ → ℕ → List ℕ
append_uvarint zero dst n = dst ++ (u8 n ∷ [])
append_uvarint (suc k) dst n =
    let more = append_uvarint k (dst ++ (bit_or (u8 n) 128 ∷ [])) (n / 2 ^ 7) in
    if leb 128 n then more else dst ++ (u8 n ∷ [])

-- EncodeBlock after the bound `n` on its result. A capacity of -1 makes `make` panic.
unfoldable pub encode_within : Option ℕ → List ℕ → Result (List ℕ)
encode_within none src = panic
encode_within (some n) src = if leb (length src) 16 then ok (encode_uncompressed [] src) else (do
  compressed ← encode_body (append_uvarint 9 (0 ∷ []) (length src)) src
  elim compressed [ none ↦ ok (encode_uncompressed [] src) | some dst ↦ ok dst ])

unfoldable pub encode_block : List ℕ → Result (List ℕ)
encode_block src = encode_within (max_encoded_len (length src)) src
