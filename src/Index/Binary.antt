-- ===== src/Index/Binary.antt =====
-- appendTo and Load of index.go as a whole, with reduce, which appendTo calls first.
use minlz.Prelude.{ℕ, zero, suc, ◌+◌, ◌*◌, ◌/◌, List, [], ◌∷◌, ◌++◌, Option, none, some}
use minlz.Prelude.{Bool, true, false, ◌&&◌, ◌||◌, length, take, drop, ltb, leb, ◌==◌, if◌then◌else◌}
use minlz.Bytes.{le24, put24, put32}
use minlz.Index.State.{OffsetPair, Index, max_index_entries, min_index_dist}
use minlz.Index.Varint.{append_varint}
use minlz.Index.Format.{
  negative64, index_header, index_trailer, put_entries, load_number, load_entries,
}
use minlz.Index.Format.{Loaded, loaded, corrupt, unexpected_eof, unsupported, ◌>>=◌}

-- The loop of reduce that counts the entries to remove behind each one, with fuel; `none` is a loop
-- that goes on.
unfoldable pub remove_n : (fuel est entries n : ℕ) → Option ℕ
remove_n zero est entries n =
    if ltb (est * (n + 1)) min_index_dist && ltb 1000 (entries / (n + 1)) then none else some n
remove_n (suc k) est entries n =
    let more = remove_n k est entries (n + 1) in
    if ltb (est * (n + 1)) min_index_dist && ltb 1000 (entries / (n + 1)) then more else some n

-- The second loop of reduce: one entry stays, `skip` entries go. Entries are written behind the
-- ones that are read.
unfoldable pub every : (skip left : ℕ) → List OffsetPair → List OffsetPair
every skip left [] = []
every skip zero (x ∷ xs) = x ∷ every skip skip xs
every skip (suc left) (x ∷ xs) = every skip left xs

unfoldable pub reduce : Index → Option Index
unfolding remove_n every
reduce i =
    let n = length i.offsets in
    if ltb n max_index_entries
    then some i
    else elim (remove_n n i.est_block_uncomp n ((n + 1) / max_index_entries)) [
      | none ↦ none
      | some k ↦ some (record i {
        offsets = every k zero i.offsets;
        est_block_uncomp = i.est_block_uncomp + i.est_block_uncomp * k;
      })
    ]

-- What stands between the chunk's header and its size, for the totals `u` and `c`.
abbrev pub content : Index → (u c : ℕ) → List ℕ
content i u c =
    index_header
    ++ (append_varint [] u
        ++ (append_varint [] c
            ++ (append_varint [] i.est_block_uncomp
                ++ (append_varint [] (length i.offsets)
                    ++ put_entries i.est_block_uncomp i.offsets))))

-- appendTo of an index that is reduced.
unfoldable pub append_reduced : Index → (b : List ℕ) (u c : ℕ) → List ℕ
append_reduced i b u c =
    let size = length (content i u c) in
    b ++ (64 ∷ (put24 (size + 10) ++ (content i u c ++ (put32 (size + 14) ++ index_trailer))))

-- appendTo: the index that it leaves, and the bytes.
unfoldable pub append_to : Index → (b : List ℕ) (u c : ℕ) → Option (Index × List ℕ)
unfolding reduce append_reduced
append_to i b u c = elim (reduce i) [ none ↦ none | some j ↦ some (j, append_reduced j b u c) ]

-- bytes.Equal
unfoldable pub equal : List ℕ → List ℕ → Bool
equal [] [] = true
equal [] (y ∷ ys) = false
equal (x ∷ xs) [] = false
equal (x ∷ xs) (y ∷ ys) = x == y && equal xs ys

abbrev pub zip : List ℕ → List ℕ → List OffsetPair
zip (u ∷ us) (c ∷ cs) = record { compressed_offset = c; uncompressed_offset = u } ∷ zip us cs
zip us cs = []

-- A total that may be -1 or less, not known.
abbrev pub known : ℕ → Option ℕ
known x = if negative64 x then none else some x

-- Load behind the entries.
unfoldable pub load_trailer : Index → List ℕ → Loaded (Index × List ℕ)
unfolding equal
load_trailer i b =
    if ltb (length b) 10
    then unexpected_eof
    else if equal (take 6 (drop 4 b)) index_trailer
    then loaded (i, drop 6 (drop 4 b))
    else corrupt

-- Load behind the four numbers.
unfoldable pub load_rest : (u c est n : ℕ) → List ℕ → Loaded (Index × List ℕ)
unfolding load_entries load_trailer
load_rest u c est n b =
    if negative64 n || ltb max_index_entries n
    then corrupt
    else (load_entries est n b >>= λ e.
        load_trailer
          (record {
            total_uncompressed = known u;
            total_compressed = known c;
            offsets = zip e.0 e.1;
            est_block_uncomp = est;
          })
          e.2)

-- Load behind the header.
unfoldable pub load_body : List ℕ → Loaded (Index × List ℕ)
unfolding load_number load_rest
load_body b = load_number b >>= λ u.
    if negative64 u.0
    then corrupt
    else (load_number u.1 >>= λ c. load_number c.1 >>= λ est.
        if negative64 est.0
        then corrupt
        else (load_number est.1 >>= λ n. load_rest u.0 c.0 est.0 n.0 n.1))

-- Load behind the first four bytes, with the length that they give.
unfoldable pub load_chunk : (chunk_len : ℕ) → List ℕ → Loaded (Index × List ℕ)
unfolding equal load_body
load_chunk n b =
    if ltb (length b) n
    then unexpected_eof
    else if equal (take 6 b) index_header
    then load_body (drop 6 b)
    else unsupported

unfoldable pub load : List ℕ → Loaded (Index × List ℕ)
unfolding load_chunk le24
load (t ∷ x ∷ y ∷ z ∷ b) =
    if leb (length b) 12
    then unexpected_eof
    else if t == 64 || t == 153
    then load_chunk (le24 x y z) b
    else corrupt
load b = unexpected_eof
