-- ===== src/Level2/RoundTrip.antt =====
-- The body that the balanced encoder writes decodes to its source.
use minlz.Prelude.{ℕ, zero, suc, ◌+◌, ◌*◌, ◌/◌, ◌^◌, ◌≤◌, ◌<◌, refl, arith, List, [], length, All}
use minlz.Prelude.{ltb, leb, Bool-cases, inl, inr, ltb→le, leb→le}
use minlz.Bytes.{IsByte}
use minlz.Decode.Machine.{Outcome}
use minlz.Reference.Decoder.{max_block_size}
use minlz.Reference.RoundTrip.Found.{Emits-nil}
use minlz.Level1.Ends.{Ends, Ends-bind}
use minlz.Level1.Advance.{emit_copy_lits2-Advance, emit_copy_lits3-Advance}
use minlz.Level1.Search.{dst_limit}
use minlz.Level1.RoundTrip.{IsBody, emit_remainder-IsBody}
use minlz.Level2.Tables.{Variant, wide, narrow}
use minlz.Level2.Search.{Better, Step, emit_rest, bail, again, Search, settled, found}
use minlz.Level2.Encode.{
  after_search, after_step, encode_loop, encode_variant, encode_block_better_go_64k,
  encode_block_better,
}
use minlz.Level2.Invariant.{IsVariant, IsReady, IsStep, IsHit}
use minlz.Level2.SearchRound.{search_step-IsHit}
use minlz.Level2.FoundRound.{after_found-IsStep}

module _ (src dst : List ℕ) (fits : length src ≤ max_block_size) (bytes : All IsByte src)
    (big : 16 ≤ length src) (roomy : dst_limit src + 19 ≤ length dst) (v : Variant)
    (good : IsVariant src v) where
  after_search-IsStep :
      (s : ℕ) (hit : Search)
      → 1 ≤ s
      → IsHit src (length dst) s hit
      → Ends (IsStep src (length dst) s) (after_search v src hit)
  unfolding after_search
  after_search-IsStep s (settled step) p h = h
  after_search-IsStep s (found c next_s b) p h =
      after_found-IsStep src (length dst) fits bytes big roomy v good s c next_s b p h

  after_step-IsBody :
      (more : Better → Outcome (List ℕ × ℕ)) (s : ℕ) (step : Step)
      → ((b : Better) → IsReady src (length dst) b → s < b.loop.s → Ends (IsBody src dst) (more b))
      → IsStep src (length dst) s step
      → Ends (IsBody src dst) (after_step more src step)
  unfolding after_step
  after_step-IsBody more s (emit_rest l) go h =
      emit_remainder-IsBody src dst fits bytes big roomy l h
  after_step-IsBody more s (bail out) go h = (h, inl refl)
  after_step-IsBody more s (again b) go h = go b h.0 h.1

  encode_loop-IsBody :
      (fuel : ℕ) (b : Better)
      → IsReady src (length dst) b
      → length src < fuel + b.loop.s
      → Ends (IsBody src dst) (encode_loop fuel v src b)
  unfolding encode_loop
  encode_loop-IsBody zero b ready f = absurd (omega (arith, ready.ready.loads))
  encode_loop-IsBody (suc n) b ready f =
      Ends-bind (IsHit src (length dst) b.loop.s) (IsBody src dst) _ _
        (search_step-IsHit src (length dst) fits bytes big roomy v good b ready)
        (λ hit h.
          Ends-bind (IsStep src (length dst) b.loop.s) (IsBody src dst) _ _
            (after_search-IsStep b.loop.s hit ready.ready.started h)
            (λ step g.
              after_step-IsBody (encode_loop n v src) b.loop.s step
                (λ b' ready' p. encode_loop-IsBody n b' ready' (omega arith)) g))

  encode_variant-IsBody : Ends (IsBody src dst) (encode_variant v dst src)
  unfolding encode_variant
  encode_variant-IsBody =
      encode_loop-IsBody (length src) _
        (record {
          ready = record {
            written = record {
              most = 0;
              emits = Emits-nil src 0 1 [];
              size = refl;
              has_repeat = omega arith;
              bounded = omega arith;
            };
            small = omega arith;
            repeat_le = omega arith;
            ordered = omega arith;
            started = omega arith;
            loads = omega arith;
            below = λ h. omega arith;
          };
          short_below = λ h. omega arith;
        })
        (omega arith)

narrow-IsVariant : (src : List ℕ) → length src ≤ 65536 → IsVariant src narrow
narrow-IsVariant src h = record {
  entry_le = λ x. omega arith;
  from_near = λ s c p q. omega arith;
  after_near = λ s c p q. omega arith;
  fuse = λ n k last offset len dst d p q r t u m room.
      emit_copy_lits2-Advance src (omega arith) n k last offset len dst d p q (ground arith)
        (ground arith) (omega (arith, m.inside, m.within)) u m room;
}

wide-IsVariant : (src : List ℕ) → length src ≤ max_block_size → IsVariant src wide
wide-IsVariant src fits = record {
  entry_le = λ x. omega arith;
  from_near = λ s c p q. ground arith;
  after_near = λ s c p q. ground arith;
  fuse = λ n k last offset len dst d p q r t u m room. elim (Bool-cases (leb offset (64 + 65535))) [
    | inl e ↦ rw e (
        emit_copy_lits2-Advance src fits n k last offset len dst d p q (ground arith) (ground arith)
          (ground arith) u m room)
    | inr e ↦ rw e (
        emit_copy_lits3-Advance src fits n k last offset len dst d p (ground arith) (ground arith) t
          u m room)
  ];
}

-- For every source of bytes that fits a block and every buffer that is at most a 32nd of the
-- source, less 13 bytes, shorter than the source, encodeBlockBetter returns without a panic and
-- without exhausting its loops, and leaves the size of the buffer as it was: it returns 0, or the
-- size of a body of bytes at the start of the buffer, which the body loop of DecodeBlock decodes
-- to the source and which is at most 13 bytes longer than 31/32 of the source.
pub encode_block_better-IsBody :
    (dst src : List ℕ)
    → All IsByte src
    → length src ≤ max_block_size
    → length src + 13 ≤ length dst + length src / 2 ^ 5
    → Ends (IsBody src dst) (encode_block_better dst src)
unfolding encode_block_better encode_block_better_go_64k
encode_block_better-IsBody dst src bytes fits room = elim (Bool-cases (ltb (length src) 16)) [
  | inl a ↦ rw a (refl, inl refl)
  | inr a ↦
      let big : 16 ≤ length src = ltb→le (length src) 16 a in
      elim (Bool-cases (leb (length src) (64 * 2 ^ 10))) [
        | inl b ↦
            rw (a, b)
              (encode_variant-IsBody src dst fits bytes big (omega arith) narrow
                (narrow-IsVariant src (leb→le (length src) (64 * 2 ^ 10) b)))
        | inr b ↦
            rw (a, b)
              (encode_variant-IsBody src dst fits bytes big (omega arith) wide
                (wide-IsVariant src fits))
      ]
]
