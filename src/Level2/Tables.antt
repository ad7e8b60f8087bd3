-- ===== src/Level2/Tables.antt =====
-- The two tables of encode_l2.go, and the positions that are put there after an emission.
use minlz.Prelude.{ℕ, zero, suc, ◌+◌, ◌-◌, ◌*◌, ◌/◌, ◌%◌, ◌^◌, List, Bool, true, false, ltb, leb}
use minlz.Prelude.{length, if◌then◌else◌, ◌&&◌, ◌==◌, not}
use minlz.Bytes.{u16, u32}
use minlz.Decode.Machine.{Outcome, next, stuck, ◌>>=◌}
use minlz.Reference.Encoder.{Table, put}
use minlz.Emit.Write.{emit_copy_lits2}
use minlz.Level1.Words.{load64, u64, hash6}
use minlz.Level1.Search.{max_copy3_offset, emit_wide_fused}

-- hash4
unfoldable pub hash4 : (u h : ℕ) → ℕ
hash4 u h = u32 (u32 u * 2654435761) / 2 ^ ((32 - h) % 32)

-- hash7
unfoldable pub hash7 : (u h : ℕ) → ℕ
hash7 u h = u32 (u64 (u64 (u * 2 ^ (64 - 56)) * 58295818150454627) / 2 ^ ((64 - h) % 64))

-- What differs between the two functions: the hashes, the type of the tables' entries, the tests
-- `candidate > minSrcPos` and `candidate >= minSrcPos`, the matches that are not worth a copy, and
-- the literals that fuse with a copy, and how.
pub record Variant : Type 0 where
  pub hash_long : ℕ → ℕ
  pub hash_short : ℕ → ℕ
  pub entry : ℕ → ℕ
  pub is_after : (s candidate : ℕ) → Bool
  pub is_from : (s candidate : ℕ) → Bool
  pub is_poor : (offset len repeat : ℕ) → Bool
  pub is_fused : (lits offset : ℕ) → Bool
  pub emit_fused : (dst lits : List ℕ) (offset len : ℕ) → Outcome (List ℕ × ℕ)

-- encodeBlockBetterGo, where minSrcPos is `s - maxCopy3Offset + 1` and may be negative.
abbrev pub wide : Variant
wide = record {
  hash_long = λ u. hash7 u 17;
  hash_short = λ u. hash4 u 14;
  entry = u32;
  is_after = λ s candidate. ltb (s + 1) (candidate + max_copy3_offset);
  is_from = λ s candidate. leb (s + 1) (candidate + max_copy3_offset);
  is_poor = λ offset len repeat. (ltb 65535 offset && leb len 4) && not (repeat == offset);
  is_fused =
      λ lits offset. if leb offset (64 + 65535) then leb lits 4 && leb 64 offset else leb lits 3;
  emit_fused = emit_wide_fused;
}

-- encodeBlockBetterGo64K
abbrev pub narrow : Variant
narrow = record {
  hash_long = λ u. hash6 u 15;
  hash_short = λ u. hash4 u 12;
  entry = u16;
  is_after = λ s candidate. true;
  is_from = λ s candidate. true;
  is_poor = λ offset len repeat. false;
  is_fused = λ lits offset. leb lits 4 && leb 64 offset;
  emit_fused = emit_copy_lits2;
}

-- lTable and sTable
pub record Tables : Type 0 where
  pub long : Table
  pub short : Table

-- The words at `i` and at `j`, and for the short table those one behind them.
unfoldable pub index_two : Variant → (src : List ℕ) → (i j : ℕ) → Tables → Outcome Tables
unfolding load64 put
index_two v src i j t = do
  cv0 ← load64 src i
  cv1 ← load64 src j
  next (record {
    long = put (put t.long (v.hash_long cv0) (v.entry i)) (v.hash_long cv1) (v.entry j);
    short =
        put (put t.short (v.hash_short (cv0 / 2 ^ 8)) (v.entry (i + 1)))
          (v.hash_short (cv1 / 2 ^ 8)) (v.entry (j + 1));
  })

-- The loop behind a repeat, with fuel.
unfoldable pub index_between :
    (fuel : ℕ) → Variant → (src : List ℕ) → (i j : ℕ) → Tables → Outcome Tables
unfolding index_two
index_between zero v src i j t = stuck
index_between (suc n) v src i j t = elim (ltb i j) [
  | false ↦ next t
  | true ↦ index_two v src i j t >>= λ t'. index_between n v src (i + 2) (j - 2) t'
]

-- The sparse loop behind a match, with fuel: `i`, `k` and `j` are index0, index2 and index1.
unfoldable pub index_sparse :
    (fuel : ℕ) → Variant → (src : List ℕ) → (i k j : ℕ) → Tables → Outcome Tables
unfolding load64 put
index_sparse zero v src i k j t = stuck
index_sparse (suc n) v src i k j t = elim (ltb k j) [
  | false ↦ next t
  | true ↦ do
    x ← load64 src i
    y ← load64 src k
    index_sparse n v src (i + 2) (k + 2) j (record t {
      long = put (put t.long (v.hash_long x) (v.entry i)) (v.hash_long y) (v.entry k);
    })
]

-- Everything that is put there behind the match `src[base:s]`.
unfoldable pub index_match : Variant → (src : List ℕ) → (base s : ℕ) → Tables → Outcome Tables
unfolding index_two index_sparse
index_match v src base s t = do
  t ← index_two v src (base + 1) (s - 2) t
  index_sparse (length src) v src (base + 2) ((base + 2 + (s - 3) + 1) / 2) (s - 3) t
