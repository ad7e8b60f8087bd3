-- ===== src/Level1/Overflow.antt =====
-- How far apart a match and its candidate may be.
use minlz.Prelude.{
  ℕ, ◌+◌, ◌-◌, ◌/◌, ◌^◌, ◌≡◌, refl, arith, List, true, false, leb, ◌==◌, le→leb, ==_iff,
}
use minlz.Bytes.{u32}
use minlz.Decode.Machine.{next, load32}
use minlz.Reference.Encoder.{Table, put}
use minlz.Emit.Write.{encode_copy3, emit_copy}
use minlz.Level1.Search.{wide, max_copy3_offset, Loop, is_match, found, try_candidates}

-- In encodeBlockGo, let the candidate of `s` not match, and let that of `s + 1` have the four bytes
-- of `s + 1` and stand maxCopy3Offset before `s`. The search takes it for `s + 1`, so that the
-- offset of the match is one more than maxCopy3Offset, and for every length emitCopy writes for it
-- what encodeCopy3 writes for the offset 65536: the offset overflows its field.
pub try_candidates-wraps :
    (src : List ℕ) (l : Loop) (cv next_s : ℕ) (table : Table) (candidate : ℕ)
    → is_match wide src l.s (l.table (wide.hash cv)) (u32 cv) ≡ next false
    → l.table (wide.hash (cv / 2 ^ 8)) ≡ candidate
    → load32 src candidate ≡ next (u32 (cv / 2 ^ 8))
    → l.s ≡ candidate + max_copy3_offset
    → (l' : Loop) × (try_candidates wide src l cv next_s table ≡ next (found candidate l'))
      × (l'.s ≡ l.s + 1)
      × ((dst : List ℕ) (len : ℕ)
          → emit_copy dst (l'.s - candidate) len ≡ encode_copy3 dst 65536 len 0)
unfolding try_candidates is_match emit_copy encode_copy3
try_candidates-wraps src l cv next_s table candidate first same word far =
    let e : l.s + 1 - candidate ≡ 2162688 = omega arith in
    let near : leb l.s (candidate + max_copy3_offset) ≡ true = le→leb _ _ (omega arith) in
    let equal : (u32 (cv / 2 ^ 8) == u32 (cv / 2 ^ 8)) ≡ true = (==_iff _ _).1 refl in
    let after = put table (wide.hash (cv / 2 ^ 16)) (wide.entry (l.s + 2)) in
    (
      record l { table = after; s = l.s + 1 },
      rw (first, same, near, word, equal) refl,
      refl,
      λ dst len. rw e refl,
    )
