-- ===== src/Index/RoundTrip.antt =====
-- Load after appendTo (index.go).
use minlz.Prelude.{ℕ, ◌+◌, ◌/◌, ◌^◌, ◌≤◌, ◌<◌, ◌≡◌, refl, ◌∙◌, ap, arith}
use minlz.Prelude.{List, [], ◌∷◌, ◌++◌, append_assoc, Option, none, some, length, length-append}
use minlz.Prelude.{true, false, ◌||◌, ltb, leb}
use minlz.Bytes.{u8, le24, put24, put32, le24_lem}
use minlz.Index.State.{OffsetPair, Index, max_index_entries}
use minlz.Index.Varint.{append_varint}
use minlz.Index.Format.{negative64, index_trailer, put_entries}
use minlz.Index.Format.{loaded}
use minlz.Index.Entries.{Rises, map, load_number-append_varint, load_entries-put_entries}
use minlz.Index.Binary.{content, append_reduced, append_to, reduce, zip, known}
use minlz.Index.Binary.{equal, load_trailer, load_rest, load_body, load_chunk, load}

-- An index that appendTo can write and Load accepts: few entries, with offsets that rise.
pub record IsWritable (i : Index) : Type 0 where
  pub few : length i.offsets < max_index_entries
  pub estimate : i.est_block_uncomp < 2 ^ 63
  pub uncompressed : Rises (λ x. x.uncompressed_offset) none i.offsets
  pub compressed : Rises (λ x. x.compressed_offset) none i.offsets

-- The index with the totals that were written.
abbrev pub with_totals : Index → (u c : ℕ) → Index
with_totals i u c = record i { total_uncompressed = known u; total_compressed = known c }

zip-map :
    (xs : List OffsetPair)
    → zip (map (λ x. x.uncompressed_offset) xs) (map (λ x. x.compressed_offset) xs) ≡ xs
zip-map [] = refl
zip-map (x ∷ xs) = ap (λ ys. x ∷ ys) (zip-map xs)

load_trailer_lem :
    (i : Index) (n : ℕ) (rest : List ℕ)
    → load_trailer i (put32 n ++ (index_trailer ++ rest)) ≡ loaded (i, rest)
unfolding load_trailer equal
load_trailer_lem i n rest = ground arith

module _ (i : Index) (w : IsWritable i) (u c : ℕ) (p : u < 2 ^ 63) (q : c < 2 ^ 64) where
  load_rest_lem :
      (n : ℕ) (rest : List ℕ)
      → load_rest u c i.est_block_uncomp
          (length i.offsets)
          (put_entries i.est_block_uncomp i.offsets ++ (put32 n ++ (index_trailer ++ rest)))
        ≡ loaded (with_totals i u c, rest)
  unfolding load_rest
  load_rest_lem n rest =
      let few : (negative64 (length i.offsets) || ltb max_index_entries (length i.offsets))
          ≡ false =
        ground (arith, w.few) in
      rw
        (
          few,
          load_entries-put_entries i.est_block_uncomp i.offsets (put32 n ++ (index_trailer ++ rest))
              w.uncompressed w.compressed,
          zip-map i.offsets,
        )
        (load_trailer_lem (with_totals i u c) n rest)

  load_body_lem :
      (tail : List ℕ)
      → load_body (
          append_varint [] u
          ++ (append_varint [] c
              ++ (append_varint [] i.est_block_uncomp
                  ++ (append_varint [] (length i.offsets) ++ tail))))
        ≡ load_rest u c i.est_block_uncomp (length i.offsets) tail
  unfolding load_body
  load_body_lem tail =
      let a : negative64 u ≡ false = ground arith in
      let b : negative64 i.est_block_uncomp ≡ false = ground (arith, w.estimate) in
      rw
        (
          load_number-append_varint u _ (omega arith),
          a,
          load_number-append_varint c _ q,
          load_number-append_varint i.est_block_uncomp _ (omega (arith, w.estimate)),
          b,
          load_number-append_varint (length i.offsets) tail (omega (arith, w.few)),
        )
        refl

  load_content :
      (n k : ℕ) (rest : List ℕ)
      → n ≤ length (content i u c ++ (put32 k ++ (index_trailer ++ rest)))
      → load_chunk n (content i u c ++ (put32 k ++ (index_trailer ++ rest)))
        ≡ loaded (with_totals i u c, rest)
  unfolding load_chunk equal
  load_content n k rest h =
      let tail = put32 k ++ (index_trailer ++ rest) in
      let over : ltb (length (content i u c ++ tail)) n ≡ false = ground (arith, h) in
      let entries = put_entries i.est_block_uncomp i.offsets in
      let regroup : (append_varint [] u
              ++ (append_varint [] c
                  ++ (append_varint [] i.est_block_uncomp
                      ++ (append_varint [] (length i.offsets) ++ entries))))
            ++ tail
          ≡ append_varint [] u
            ++ (append_varint [] c
                ++ (append_varint [] i.est_block_uncomp
                    ++ (append_varint [] (length i.offsets) ++ (entries ++ tail)))) =
        simp append_assoc in
      rw (load_chunk, over)
        (ap load_body regroup ∙ load_body_lem (entries ++ tail) ∙ load_rest_lem k rest)

le24-put24_le : (n : ℕ) → le24 (u8 n) (u8 (n / 2 ^ 8)) (u8 (n / 2 ^ 16)) ≤ n
le24-put24_le n =
    rw (le24_lem (u8 n) (u8 (n / 2 ^ 8)) (u8 (n / 2 ^ 16)) (omega arith) (omega arith))
      (omega arith)

reduce-few : (i : Index) → length i.offsets < max_index_entries → reduce i ≡ some i
unfolding reduce
reduce-few i h =
    let few : ltb (length i.offsets) max_index_entries ≡ true = ground arith in
    rw (reduce, few) refl

append_assoc_tail :
    (xs : List ℕ) (k : ℕ) (rest : List ℕ)
    → (xs ++ (put32 k ++ index_trailer)) ++ rest ≡ xs ++ (put32 k ++ (index_trailer ++ rest))
append_assoc_tail xs k rest = append_assoc xs (put32 k ++ index_trailer) rest

append_reduced-append :
    (i : Index) (u c : ℕ) (rest : List ℕ)
    → append_reduced i [] u c ++ rest
      ≡ 64
        ∷ (put24 (length (content i u c) + 10)
            ++ (content i u c ++ (put32 (length (content i u c) + 14) ++ (index_trailer ++ rest))))
unfolding append_reduced
append_reduced-append i u c rest =
    let size = length (content i u c) in
    ap (λ xs. 64 ∷ (put24 (size + 10) ++ xs)) (append_assoc_tail (content i u c) (size + 14) rest)

load_written :
    (i : Index) (u c : ℕ) (rest : List ℕ)
    → IsWritable i
    → u < 2 ^ 63
    → c < 2 ^ 64
    → load (
        64
        ∷ (put24 (length (content i u c) + 10)
            ++ (content i u c ++ (put32 (length (content i u c) + 14) ++ (index_trailer ++ rest)))))
      ≡ loaded (with_totals i u c, rest)
unfolding load
load_written i u c rest w p q =
    let size = length (content i u c) in
    let tail = put32 (size + 14) ++ (index_trailer ++ rest) in
    let whole = length-append (content i u c) tail in
    let long : leb (length (content i u c ++ tail)) 12 ≡ false = ground (arith, whole) in
    let fits : le24 (u8 (size + 10)) (u8 ((size + 10) / 2 ^ 8)) (u8 ((size + 10) / 2 ^ 16))
        ≤ length (content i u c ++ tail) =
      omega (arith, whole, le24-put24_le (size + 10)) in
    rw (load, long) (load_content i w u c p q _ (size + 14) rest fits)

-- The result of appendTo, loaded again with `rest` behind it.
abbrev pub Loads : (i : Index) (u c : ℕ) (rest : List ℕ) → Option (Index × List ℕ) → Type 0
Loads i u c rest none = ⊥
Loads i u c rest (some (j, b)) = (j ≡ i) × (load (b ++ rest) ≡ loaded (with_totals i u c, rest))

-- For every index with fewer than 65536 entries whose offsets rise and fit an int64, and all totals
-- of which the uncompressed one is not negative, appendTo leaves the index as it is, and Load reads
-- from the bytes that it wrote the same entries, the same block estimate and the totals, and
-- nothing of what follows. A negative compressed total comes back as one that is not known.
pub load-append_to :
    (i : Index) (u c : ℕ) (rest : List ℕ)
    → IsWritable i
    → u < 2 ^ 63
    → c < 2 ^ 64
    → Loads i u c rest (append_to i [] u c)
unfolding append_to
load-append_to i u c rest w p q =
    rw (append_to, reduce-few i w.few)
      (refl, ap load (append_reduced-append i u c rest) ∙ load_written i u c rest w p q)
