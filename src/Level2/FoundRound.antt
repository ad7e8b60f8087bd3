-- ===== src/Level2/FoundRound.antt =====
-- What is emitted for a match, and what follows it.
use minlz.Prelude.{ℕ, ◌+◌, ◌-◌, ◌^◌, ◌≤◌, ◌<◌, ◌≡◌, arith, List, length, All}
use minlz.Prelude.{ltb, leb, Bool-cases, inl, inr, ltb→le, ltb→lt, if◌then◌else◌}
use mathlib.Core.Path.{subst}
use minlz.Bytes.{IsByte}
use minlz.Decode.Machine.{next, ◌>>=◌}
use minlz.Reference.Decoder.{max_block_size}
use minlz.Reference.Encoder.{Table, slice}
use minlz.Reference.RoundTrip.Source.{IsMatch, length-slice}
use minlz.Level1.Ends.{Ends, Ends-bind, Ends-weaken}
use minlz.Level1.Loads.{Agree-drop}
use minlz.Level1.Extend.{Back, extend_back-Back}
use minlz.Level1.Advance.{Advance}
use minlz.Level1.Invariant
use minlz.Level1.Invariant.{found-Agree, found-IsMatch}
use minlz.Level1.Pieces.{copy-Advance, literals_copy-Advance, fused-Advance}
use minlz.Level1.Search.{Loop, s_limit, dst_limit}
use minlz.Level2.Tables.{Variant}
use minlz.Level2.Search.{Better, emit_rest, again}
use minlz.Level2.Found.{emit_found, after_emitted, after_found}
use minlz.Level2.Reaches.{Whole, extend_to_end-Whole, Whole-Forward}
use minlz.Level2.Below.{Below, index_match-Below}
use minlz.Level2.Invariant.{IsVariant, IsStep, IsFound}

module _ (src : List ℕ) (room : ℕ) (fits : length src ≤ max_block_size) (bytes : All IsByte src)
    (big : 16 ≤ length src) (roomy : dst_limit src + 19 ≤ room) (v : Variant)
    (good : IsVariant src v) where
  -- What was written, and how much of it.
  abbrev Emitted : (l : Loop) (e offset : ℕ) → List ℕ × ℕ → Type 0
  Emitted l e offset r =
      (most : ℕ) × Advance src l.next_emit l.repeat e offset l.dst l.d most r
      × (r.1 ≤ dst_limit src + 19)

  emit_found-Emitted :
      (l : Loop) (base offset e : ℕ)
      → Invariant.IsWritten src room l
      → l.d + (base - l.next_emit) ≤ dst_limit src
      → l.next_emit ≤ base
      → base + 4 ≤ e
      → offset < 65536 + 2 ^ 21
      → IsMatch src base offset (e - base)
      → Ends (Emitted l e offset) (emit_found v src l base offset e)
  unfolding emit_found
  emit_found-Emitted l base offset e w limit le far reach m =
      let size = w.size in
      let inside = m.within in
      let k = base - l.next_emit in
      let count : length (slice src l.next_emit base) ≡ k =
        length-slice src fits l.next_emit k (omega arith) in
      let lits = slice src l.next_emit base in
      elim (Bool-cases (ltb 0 (length lits))) [
        | inr x ↦
            let same : base ≡ l.next_emit = omega (arith, count, ltb→le 0 (length lits) x) in
            rw x (
              Ends-weaken (Advance src base l.repeat e offset l.dst l.d 7) (Emitted l e offset) _
                (copy-Advance src fits base l.repeat offset e l.dst l.d w.has_repeat far reach m
                  (omega arith))
                (λ r a. (
                  7,
                  subst (λ j. Advance src j l.repeat e offset l.dst l.d 7 r) same a,
                  omega (arith, a.near),
                )))
        | inl x ↦
            let before : l.next_emit < base = omega (arith, count, ltb→lt 0 (length lits) x) in
            rw x (elim (Bool-cases (v.is_fused (length lits) offset)) [
              | inl y ↦ rw y (
                  Ends-weaken (Advance src l.next_emit l.repeat e offset l.dst l.d 11)
                    (Emitted l e offset) _
                    (fused-Advance src (λ tail. v.emit_fused tail lits offset (e - base))
                      l.next_emit base l.repeat offset e l.dst l.d le (omega arith) m
                      (λ m'.
                        good.fuse l.next_emit k l.repeat offset (e - base) l.dst l.d w.has_repeat
                          (omega arith) (rw count at y) reach (omega arith) m' (omega arith)))
                    (λ r a. (11, a, omega (arith, a.near))))
              | inr y ↦ rw y (
                  Ends-weaken (Advance src l.next_emit l.repeat e offset l.dst l.d (4 + k + 7))
                    (Emitted l e offset) _
                    (literals_copy-Advance src fits l.next_emit base l.repeat offset e l.dst l.d
                      w.has_repeat le far reach m (omega arith))
                    (λ r a. (4 + k + 7, a, omega (arith, a.near))))
            ])
      ]

  after_emitted-IsStep :
      (from base : ℕ) (l : Loop) (short : Table)
      → Invariant.IsWritten src room l
      → l.d ≤ dst_limit src + 19
      → l.next_emit ≤ l.s
      → l.repeat ≤ l.s
      → from < l.s
      → base + 4 ≤ l.s
      → Below l.s (record { long = l.table; short = short })
      → Ends (IsStep src room from) (after_emitted v src base l short)
  unfolding after_emitted
  after_emitted-IsStep from base l short w small ordered le later far below =
      elim (Bool-cases (leb (s_limit src) l.s)) [
        | inl x ↦ rw x (record { written = w; small = small })
        | inr x ↦
            let before : l.s < s_limit src = ground arith in
            elim (Bool-cases (ltb (dst_limit src) l.d)) [
              | inl y ↦ rw (x, y) w.size
              | inr y ↦
                  let limit = ltb→le _ _ y in
                  rw (x, y)
                    (Ends-bind (Below l.s) (IsStep src room from) _ _
                      (index_match-Below src bytes v good.entry_le base l.s
                        (record { long = l.table; short = short }) far (omega arith) below)
                      (λ t b. (
                        record {
                          ready = record {
                            written = Invariant.moved-IsWritten src room l l.s t.long w;
                            small = omega arith;
                            repeat_le = le;
                            ordered = ordered;
                            started = omega arith;
                            loads = omega arith;
                            below = b.long;
                          };
                          short_below = b.short;
                        },
                        later,
                      )))
            ]
      ]

  -- A match that is not worth a copy: the search goes on behind it.
  skipped-IsStep :
      (from c next_s : ℕ) (b : Better)
      → 1 ≤ from
      → IsFound src room from c next_s b
      → Ends (IsStep src room from) (
          next (
            if leb (s_limit src) (next_s + 1)
            then emit_rest (record b.loop { s = next_s + 1 })
            else again (record b { loop = record b.loop { s = next_s + 1 } })))
  skipped-IsStep from c next_s b one fd =
      let l = b.loop in
      let le = fd.next_le in
      let w = Invariant.moved-IsWritten src room l (next_s + 1) l.table fd.written in
      elim (Bool-cases (leb (s_limit src) (next_s + 1))) [
        | inl x ↦ rw x (record { written = w; small = omega (arith, fd.small) })
        | inr x ↦
            let before : next_s + 1 < s_limit src = ground arith in
            rw x (
              record {
                ready = record {
                  written = w;
                  small = fd.small;
                  repeat_le = omega (arith, fd.repeat_le);
                  ordered = omega (arith, fd.ordered);
                  started = omega arith;
                  loads = omega arith;
                  below = fd.below_next;
                };
                short_below = λ h. omega (arith, fd.short_below h);
              },
              omega (arith, fd.next_later),
            )
      ]

  -- What follows the extensions.
  matched-IsStep :
      (from c0 next_s c base e : ℕ) (b : Better)
      → 1 ≤ from
      → IsFound src room from c0 next_s b
      → Back src b.loop.next_emit c0 b.loop.s (c, base)
      → Whole src (base + 4) (c + 4) e
      → b.loop.d + (base - b.loop.next_emit) ≤ dst_limit src
      → Ends (IsStep src room from) (
          if v.is_poor (base - c) (e - base) b.loop.repeat
          then next (
              if leb (s_limit src) (next_s + 1)
              then emit_rest (record b.loop { s = next_s + 1 })
              else again (record b { loop = record b.loop { s = next_s + 1 } }))
          else (emit_found v src b.loop base (base - c) e >>= λ r.
              after_emitted v src base
                (record {
                  dst = r.0;
                  d = r.1;
                  table = b.loop.table;
                  s = e;
                  next_emit = e;
                  repeat = base - c;
                })
                b.short))
  matched-IsStep from c0 next_s c base e b one fd x y limit =
      let l = b.loop in
      let low = x.base_le in
      let shift = x.shift in
      let far = y.forward in
      let behind = fd.behind in
      let later = fd.later in
      let front = found-Agree src l.s l.next_emit c0 c base fd.same x in
      let reached : base + 4 + (l.s - base) ≤ e =
        y.reaches (l.s - base) (omega (arith, fd.inside))
          (Agree-drop src base c 4 (l.s - base) front) in
      elim (Bool-cases (v.is_poor (base - c) (e - base) l.repeat)) [
        | inl p ↦ rw p (skipped-IsStep from c0 next_s b one fd)
        | inr p ↦ rw p (
            Ends-bind (Emitted l e (base - c)) (IsStep src room from) _ _
              (emit_found-Emitted l base (base - c) e fd.written limit x.not_before far
                (omega (arith, fd.near))
                (found-IsMatch src l.s l.next_emit c0 c base e behind fd.same x
                  (Whole-Forward src (base + 4) (c + 4) e (omega arith) y)))
              (λ (dst, d) (most, a, small).
                let l' : Loop = record {
                  dst = dst;
                  d = d;
                  table = l.table;
                  s = e;
                  next_emit = e;
                  repeat = base - c;
                } in
                after_emitted-IsStep from base l' b.short
                  (Invariant.Advance-IsWritten src room l l' most fd.written a (omega arith)
                    y.within)
                  small (omega arith) (omega arith) (omega arith) far
                  (record {
                    long = λ h. omega (arith, fd.below h);
                    short = λ h. omega (arith, fd.short_below h);
                  })))
      ]

  pub after_found-IsStep :
      (from c0 next_s : ℕ) (b : Better)
      → 1 ≤ from
      → IsFound src room from c0 next_s b
      → Ends (IsStep src room from) (after_found v src c0 next_s b)
  unfolding after_found
  after_found-IsStep from c0 next_s b one fd =
      let l = b.loop in
      let behind = fd.behind in
      let inside = fd.inside in
      Ends-bind (Back src l.next_emit c0 l.s) (IsStep src room from) _ _
        (extend_back-Back src l.next_emit c0 l.s fd.ordered (omega arith) (omega arith))
        (λ (c, base) x.
          let low = x.base_le in
          let shift = x.shift in
          elim (Bool-cases (ltb (dst_limit src) (l.d + (base - l.next_emit)))) [
            | inl z ↦ rw z fd.written.size
            | inr z ↦ rw z (
                Ends-bind (Whole src (base + 4) (c + 4)) (IsStep src room from) _ _
                  (extend_to_end-Whole (length src) src (base + 4) (c + 4) bytes (omega arith)
                    (omega arith) (omega arith))
                  (λ e y. matched-IsStep from c0 next_s c base e b one fd x y (ltb→le _ _ z)))
          ])
