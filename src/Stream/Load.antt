-- ===== src/Stream/Load.antt =====
-- LoadIndex and LoadIndexAfterHeader of internal/reference/index.go. An int64 is kept as its pattern
-- of 64 bits.
use minlz.Prelude.{ℕ, zero, suc, List, [], ◌∷◌, Option, none, some, Bool, false, ◌||◌}
use minlz.Prelude.{length, take, drop, ltb, leb, ◌==◌, if◌then◌else◌}
use minlz.Bytes.{le24}
use minlz.Index.State.{OffsetPair, max_index_entries}
use minlz.Index.Varint.{varint}
use minlz.Index.Format.{half64, le64, negative64, index_header, index_trailer, predict, undelta}
use minlz.Index.Binary.{equal, zip}
use minlz.Stream.Result.{
  StreamError, Read, value, failed, panics, ◌>>=◌, truncated, unknown_chunk_type, invalid_header,
  uncompressed_size, compressed_size, estimated_size, negative_estimate, entry_count,
  invalid_entry_count, invalid_has_uncompressed, uncompressed_delta, uncompressed_order,
  negative_uncompressed, compressed_delta, compressed_order, negative_compressed, invalid_trailer,
}

pub record Index : Type 0 where
  pub total_uncompressed : ℕ
  pub total_compressed : ℕ
  pub blocks : List OffsetPair
  pub est_block_uncomp : ℕ

-- A number, and what follows it.
unfoldable pub read_number : StreamError → List ℕ → Read (ℕ × List ℕ)
unfolding varint
read_number e b = elim (varint b) [ none ↦ failed e | some (v, n) ↦ value (v, drop n b) ]

-- `off <= prev` for an entry with one before it.
unfoldable pub is_not_after : Option ℕ → ℕ → Bool
unfolding le64
is_not_after none x = false
is_not_after (some prev) x = le64 x prev

-- The two loops, for the entries that are left.
unfoldable pub read_uncompressed :
    (est : ℕ) (has : Bool) (prev : Option ℕ) (left : ℕ) → List ℕ → Read (List ℕ × List ℕ)
unfolding read_number undelta is_not_after
read_uncompressed est has prev zero b = value ([], b)
read_uncompressed est has prev (suc n) b =
    (if has then read_number uncompressed_delta b else value (0, b)) >>= λ r.
    let u = undelta est prev r.0 in
    let more = read_uncompressed est has (some u) n r.1 in
    if is_not_after prev u
    then failed uncompressed_order
    else if negative64 u
    then failed negative_uncompressed
    else more >>= λ s. value (u ∷ s.0, s.1)

unfoldable pub read_compressed :
    (step : ℕ) (prev : Option ℕ) (left : ℕ) → List ℕ → Read (List ℕ × List ℕ)
unfolding read_number undelta is_not_after predict
read_compressed step prev zero b = value ([], b)
read_compressed step prev (suc n) b = read_number compressed_delta b >>= λ r.
    let c = undelta step prev r.0 in
    let more = read_compressed (predict step prev r.0) (some c) n r.1 in
    if is_not_after prev c
    then failed compressed_order
    else if negative64 c
    then failed negative_compressed
    else more >>= λ s. value (c ∷ s.0, s.1)

-- From the byte `hasUncompressed` on.
unfoldable pub read_entries : (est left : ℕ) → List ℕ → Read (List ℕ × List ℕ × List ℕ)
unfolding read_uncompressed read_compressed half64
read_entries est n [] = failed truncated
read_entries est n (flag ∷ b) =
    if ltb 1 flag
    then failed invalid_has_uncompressed
    else (read_uncompressed est (flag == 1) none n b >>= λ u.
        read_compressed (half64 est) none n u.1 >>= λ c. value (u.0, c.0, c.1))

unfoldable pub read_trailer : Index → List ℕ → Read Index
unfolding equal
read_trailer i b =
    if ltb (length b) 10
    then failed truncated
    else if equal (take 6 (drop 4 b)) index_trailer
    then value i
    else failed invalid_trailer

-- Behind the four numbers.
unfoldable pub read_rest : (u c est n : ℕ) → List ℕ → Read Index
unfolding read_entries read_trailer
read_rest u c est n b =
    if negative64 n || ltb max_index_entries n
    then failed invalid_entry_count
    else (read_entries est n b >>= λ e.
        read_trailer
          (record {
            total_uncompressed = u;
            total_compressed = c;
            blocks = zip e.0 e.1;
            est_block_uncomp = est;
          })
          e.2)

-- Behind the header.
unfoldable pub read_body : List ℕ → Read Index
unfolding read_number read_rest
read_body b = read_number uncompressed_size b >>= λ u.
    if negative64 u.0
    then failed uncompressed_size
    else (read_number compressed_size u.1 >>= λ c. read_number estimated_size c.1 >>= λ est.
        if negative64 est.0
        then failed negative_estimate
        else (read_number entry_count est.1 >>= λ n. read_rest u.0 c.0 est.0 n.0 n.1))

-- LoadIndexAfterHeader of a slice with no capacity behind its end: `b[:len(IndexHeader)]` of a
-- shorter one panics.
unfoldable pub load_index_after_header : List ℕ → Read Index
unfolding equal read_body
load_index_after_header b =
    if ltb (length b) 6
    then panics
    else if equal (take 6 b) index_header
    then read_body (drop 6 b)
    else failed invalid_header

unfoldable pub load_index : List ℕ → Read Index
unfolding load_index_after_header le24
load_index (t ∷ x ∷ y ∷ z ∷ b) =
    if leb (length b) 12
    then failed truncated
    else if t == 64
    then if ltb (length b) (le24 x y z) then failed truncated else load_index_after_header b
    else failed unknown_chunk_type
load_index b = failed truncated
