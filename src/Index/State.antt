-- ===== src/Index/State.antt =====
-- Index of index.go, what adds to it, and Find. An offset into a stream is a ℕ far below 2^63; a
-- test such as `a - b < c` is written `a < b + c`, since a difference on ℕ stops at 0.
use minlz.Prelude.{
  ℕ, zero, suc, ◌+◌, ◌-◌, ◌*◌, ◌^◌, List, [], ◌∷◌, ◌++◌, Option, none, some, Bool, true,
}
use minlz.Prelude.{length, get_elem?, ltb, ◌==◌, if◌then◌else◌}

abbrev pub max_index_entries : ℕ
max_index_entries = 2 ^ 16

abbrev pub min_index_dist : ℕ
min_index_dist = 2 ^ 20

pub record OffsetPair : Type 0 where
  pub compressed_offset : ℕ
  pub uncompressed_offset : ℕ

-- `none` is a total that is not known, -1.
pub record Index : Type 0 where
  pub total_uncompressed : Option ℕ
  pub total_compressed : Option ℕ
  pub offsets : List OffsetPair
  pub est_block_uncomp : ℕ

-- The loop of reset, by the rounds that are left; `none` is a loop that goes on.
unfoldable pub grow : (rounds max_block : ℕ) → Option ℕ
grow zero max_block = if ltb max_block min_index_dist then none else some max_block
grow (suc k) max_block =
    let more = grow k (max_block * 2) in
    if ltb max_block min_index_dist then more else some max_block

unfoldable pub reset : (max_block : ℕ) → Option Index
unfolding grow
reset max_block = elim (grow 20 max_block) [
  | none ↦ none
  | some est ↦ some (record {
    total_uncompressed = none;
    total_compressed = none;
    offsets = [];
    est_block_uncomp = est;
  })
]

abbrev pub last : List OffsetPair → Option OffsetPair
last [] = none
last (x ∷ []) = some x
last (x ∷ y ∷ xs) = last (y ∷ xs)

-- The loops of reduceLight on what is left of `src`. With a base, the inner loop is under way:
-- it passes the entries nearer than `est`, and the outer loop passes the one at which it stops.
-- Entries are written behind the ones that are read, so the writes change nothing that is read.
unfoldable pub thin : (est : ℕ) (base : Option OffsetPair) (src : List OffsetPair) → List OffsetPair
thin est base [] = []
thin est none (x ∷ src) = x ∷ thin est (if ltb 0 est then some x else none) src
thin est (some base) (x ∷ src) =
    thin est
      (if ltb x.uncompressed_offset (base.uncompressed_offset + est) then some base else none) src

unfoldable pub reduce_light : Index → Index
unfolding thin
reduce_light i = record i {
  est_block_uncomp = i.est_block_uncomp * 2;
  offsets = thin (i.est_block_uncomp * 2) none i.offsets;
}

-- The result of add: the index, which an error leaves as it is.
pub data Added : Type 0 where
  added : Index → Added
  earlier_uncompressed earlier_compressed : Added

unfoldable pub append_offset : Index → OffsetPair → Index
unfolding reduce_light
append_offset i x =
    let j : Index = record i { offsets = i.offsets ++ (x ∷ []) } in
    if ltb max_index_entries (length j.offsets) then reduce_light j else j

unfoldable pub add : Index → (compressed uncompressed : ℕ) → Added
unfolding append_offset
add i c u =
    let next =
      added (append_offset i (record { compressed_offset = c; uncompressed_offset = u })) in
    elim (last i.offsets) [
      | none ↦ next
      | some latest ↦
          if ltb u (latest.uncompressed_offset + i.est_block_uncomp)
          then added i
          else if ltb u latest.uncompressed_offset
          then earlier_uncompressed
          else if ltb c latest.compressed_offset
          then earlier_compressed
          else next
    ]

-- The argument of Find: an offset, or `from_end n` for -(n + 1).
pub data Position : Type 0 where
  from_start from_end : ℕ → Position

-- `panics` is an index out of range.
pub data Found : Type 0 where
  found : OffsetPair → Found
  err_corrupt unexpected_eof panics : Found

-- The loop of Find, with the results so far.
unfoldable pub scan : (offset : ℕ) → OffsetPair → List OffsetPair → OffsetPair
scan offset r [] = r
scan offset r (info ∷ infos) =
    let more = scan offset info infos in if ltb offset info.uncompressed_offset then r else more

-- `i.Offsets[n].UncompressedOffset > offset`; sort.Search asks for an `n` in range only.
abbrev pub is_behind : (offsets : List OffsetPair) (offset n : ℕ) → Bool
is_behind offsets offset n = elim (get_elem? offsets n) [
  | none ↦ true
  | some info ↦ ltb offset info.uncompressed_offset
]

-- Find with sort.Search.
unfoldable pub find_sorted :
    (sort_search : ℕ → (ℕ → Bool) → ℕ) (offset : ℕ) → List OffsetPair → Found
find_sorted sort_search offset offsets =
    let n = sort_search (length offsets) (is_behind offsets offset) in
    let m = if n == 0 then 1 else n in
    elim (get_elem? offsets (m - 1)) [ none ↦ panics | some info ↦ found info ]

-- Find behind its tests of `offset`.
unfoldable pub find_inside :
    (sort_search : ℕ → (ℕ → Bool) → ℕ) (offset : ℕ) → List OffsetPair → Found
unfolding find_sorted scan
find_inside sort_search offset offsets =
    let start : OffsetPair = record { compressed_offset = 0; uncompressed_offset = 0 } in
    if ltb 200 (length offsets)
    then find_sorted sort_search offset offsets
    else found (scan offset start offsets)

-- The offset from the start, or `none` before it.
abbrev pub absolute : (total : ℕ) → Position → Option ℕ
absolute total (from_start offset) = some offset
absolute total (from_end n) = if ltb n total then some (total - (n + 1)) else none

unfoldable pub find : (sort_search : ℕ → (ℕ → Bool) → ℕ) → Index → Position → Found
unfolding find_inside
find sort_search i at = elim i.total_uncompressed [
  | none ↦ err_corrupt
  | some total ↦ elim (absolute total at) [
    | none ↦ unexpected_eof
    | some offset ↦
        if ltb total offset then unexpected_eof else find_inside sort_search offset i.offsets
  ]
]
