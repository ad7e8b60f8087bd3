-- ===== src/Index/Find.antt =====
-- Find of index.go returns the last entry at or before the offset, with either of its searches.
use minlz.Prelude.{ℕ, ◌≤◌, ◌<◌, ◌≡◌, refl, sym, ◌∙◌, arith, List, [], ◌∷◌, All}
use minlz.Prelude.{Bool, Option, none, some, length, get_elem?, ltb}
use minlz.Prelude.{Bool-cases, inl, inr, ltb→lt}
use minlz.Prelude.Slices.{All-map}
use mathlib.Core.Path.{subst}
use mathlib.Core.Option.{some_inj}
use minlz.Index.State.{OffsetPair, Index, scan, find_inside, find, Found, found, absolute}
use minlz.Index.State.{Position, err_corrupt, unexpected_eof, panics}
use minlz.Index.Spaced.{Apart, Spaced}
use minlz.Index.Search.{Searches, find_sorted-scan}

abbrev pub stream_start : OffsetPair
stream_start = record { compressed_offset = 0; uncompressed_offset = 0 }

-- `r` is the last entry of `start` and `xs` that is not behind `offset`.
pub record IsLatest (offset : ℕ) (start : OffsetPair) (xs : List OffsetPair) (r : OffsetPair)
    : Type 0 where
  pub at_or_before : r.uncompressed_offset ≤ offset
  pub after_start :
      (start.uncompressed_offset ≤ r.uncompressed_offset)
      × (start.compressed_offset ≤ r.compressed_offset)
  pub latest :
      All
        (λ x.
          x.uncompressed_offset ≤ offset
          → (x.uncompressed_offset ≤ r.uncompressed_offset)
            × (x.compressed_offset ≤ r.compressed_offset))
        xs

-- The loop of Find from `start` on.
scan-IsLatest :
    (est offset : ℕ) (start : OffsetPair) (xs : List OffsetPair)
    → start.uncompressed_offset ≤ offset
    → All (Apart 0 start) xs
    → Spaced est xs
    → IsLatest offset start xs (scan offset start xs)
unfolding scan
scan-IsLatest est offset start [] p h s = record {
  at_or_before = p;
  after_start = (omega arith, omega arith);
  latest = tt;
}
scan-IsLatest est offset start (x ∷ xs) p h s =
    elim (Bool-cases (ltb offset x.uncompressed_offset)) [
      | inl a ↦
          let far = ltb→lt offset x.uncompressed_offset a in
          rw a (record {
            at_or_before = p;
            after_start = (omega arith, omega arith);
            latest = (
              λ k. absurd (omega (arith, k, far)),
              All-map _ _ xs (λ y q k. absurd (omega (arith, q, k, far))) s.0,
            );
          })
      | inr a ↦
          let l =
            scan-IsLatest est offset x xs (ground arith)
              (All-map _ _ xs (λ y q. (omega (arith, q), omega (arith, q))) s.0) s.1 in
          rw a (record {
            at_or_before = l.at_or_before;
            after_start = (omega (arith, l.after_start, h.0), omega (arith, l.after_start, h.0));
            latest = (λ k. l.after_start, l.latest);
          })
    ]

-- What each result of Find says of a stream whose entries are `offsets`: the last entry that is not
-- behind the offset, a size that is not known, or an offset that is not in the stream. The
-- documentation names ErrUnsupported for an offset from the end where the size is not known; the
-- code returns ErrCorrupt there, as it does for every offset.
abbrev pub Finds : (i : Index) (at : Position) → Found → Type 0
Finds i at (found r) =
    (total offset : ℕ) × (i.total_uncompressed ≡ some total)
    × (absolute total at ≡ some offset)
    × (offset ≤ total)
    × IsLatest offset stream_start i.offsets r
Finds i at err_corrupt = i.total_uncompressed ≡ none
Finds i at unexpected_eof =
    (total : ℕ) × (i.total_uncompressed ≡ some total)
    × ((offset : ℕ) → absolute total at ≡ some offset → total < offset)
Finds i at panics = ⊥

Apart-start : (xs : List OffsetPair) → All (Apart 0 stream_start) xs
Apart-start [] = tt
Apart-start (x ∷ xs) = ((omega arith, omega arith), Apart-start xs)

find_inside-scan :
    (sort_search : ℕ → (ℕ → Bool) → ℕ) (est offset : ℕ) (xs : List OffsetPair)
    → Searches sort_search
    → Spaced est xs
    → ((x : OffsetPair) → get_elem? xs 0 ≡ some x → x.uncompressed_offset ≡ 0)
    → find_inside sort_search offset xs ≡ found (scan offset stream_start xs)
unfolding find_inside
find_inside-scan sort_search est offset [] law s starts = refl
find_inside-scan sort_search est offset (x ∷ xs) law s starts =
    elim (Bool-cases (ltb 200 (length (x ∷ xs)))) [
      | inr a ↦ rw a refl
      | inl a ↦ rw a (
          find_sorted-scan sort_search est offset stream_start x xs law s
            (omega (arith, starts x refl)))
    ]

-- With a search that does what sort.Search documents, on an index whose entries are in order and
-- start at the start of the stream, Find returns the last entry at or before the offset, for short
-- and long indexes alike; ErrCorrupt exactly when the size is not known, and io.ErrUnexpectedEOF
-- only for an offset outside of the stream. It does not panic.
pub find-Finds :
    (sort_search : ℕ → (ℕ → Bool) → ℕ) (i : Index) (at : Position) (est : ℕ)
    → Searches sort_search
    → Spaced est i.offsets
    → ((x : OffsetPair) → get_elem? i.offsets 0 ≡ some x → x.uncompressed_offset ≡ 0)
    → Finds i at (find sort_search i at)
unfolding find
find-Finds sort_search i at est law s starts = with_total i.total_uncompressed refl
  where
    with_offset :
        (total : ℕ) (o : Option ℕ)
        → i.total_uncompressed ≡ some total
        → absolute total at ≡ o
        → Finds i at (find sort_search i at)
    with_offset total none e f = rw (find, e, f) (total, refl, λ o g. cc)
    with_offset total (some offset) e f = elim (Bool-cases (ltb total offset)) [
      | inl a ↦
          rw (find, e, f, a)
            (
              total,
              refl,
              λ o g. subst (λ z. total < z) (some_inj.0 (sym f ∙ g)) (ltb→lt total offset a),
            )
      | inr a ↦
          rw (find, e, f, a, find_inside-scan sort_search est offset i.offsets law s starts)
            (
              total,
              offset,
              refl,
              f,
              ground arith,
              scan-IsLatest est offset stream_start i.offsets (omega arith) (Apart-start i.offsets)
                  s,
            )
    ]

    with_total : (o : Option ℕ) → i.total_uncompressed ≡ o → Finds i at (find sort_search i at)
    with_total none e = rw (find, e) refl
    with_total (some total) e = with_offset total (absolute total at) e refl
