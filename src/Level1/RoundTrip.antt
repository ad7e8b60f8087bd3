-- ===== src/Level1/RoundTrip.antt =====
-- The body that the fastest encoder writes decodes to its source.
use minlz.Prelude.{ℕ, zero, suc, ◌+◌, ◌-◌, ◌/◌, ◌^◌, ◌≤◌, ◌<◌, ◌≡◌, ◌⊎◌, refl, sym, ◌∙◌, arith}
use minlz.Prelude.{List, [], length, length-drop, take, drop, take-length, All, ltb, leb}
use minlz.Prelude.{Bool-cases, inl, inr, ltb→le, leb→le, ltb→lt}
use mathlib.Core.Path.{subst}
use minlz.Bytes.{IsByte}
use minlz.Decode.Machine.{Outcome}
use minlz.Reference.Reader.{ok}
use minlz.Reference.Decoder.{max_block_size, decode_body}
use minlz.Reference.RoundTrip.Emits.{Emits, Emits-trans}
use minlz.Reference.RoundTrip.Found.{Emits-nil}
use minlz.Reference.RoundTrip.Block.{decode_body-Emits}
use minlz.Emit.Buffer.{on_tail}
use minlz.Emit.Write.{emit_literal}
use minlz.Level1.Ends.{Ends, Ends-bind, Ends-weaken}
use minlz.Level1.Advance.{Advance, emit_literal-Advance, emit_copy_lits2-Advance}
use minlz.Level1.Advance.{emit_copy_lits3-Advance}
use minlz.Level1.Invariant.{IsReady, IsLast, IsStep, IsHit}
use minlz.Level1.SearchRound.{IsVariant, search_step-IsHit}
use minlz.Level1.AfterFound.{after_found-IsStep}
use minlz.Level1.Search.{
  Variant, wide, narrow, Loop, Step, emit_rest, bail, again, Search, settled, found, dst_limit,
}
use minlz.Level1.Encode.{
  emit_remainder, after_search, after_step, encode_loop, encode_variant, encode_block_go,
  encode_block_go_64k, encode_block,
}

-- What the encoder returns for the buffer: 0, or the size of a body of bytes at its start, which
-- the body loop of DecodeBlock decodes to the source.
abbrev pub IsBody : (src dst : List ℕ) → List ℕ × ℕ → Type 0
IsBody src dst (out, d) =
    (length out ≡ length dst)
    × ((d ≡ 0)
        ⊎ ((d ≤ dst_limit src + 19)
            × All IsByte (take d out)
            × (decode_body (length src) (take d out) ≡ ok src)))

module _ (src dst : List ℕ) (fits : length src ≤ max_block_size) (bytes : All IsByte src)
    (big : 16 ≤ length src) (roomy : dst_limit src + 19 ≤ length dst) where
  -- All of the source is rebuilt.
  whole-IsBody :
      (out : List ℕ) (d o most : ℕ)
      → length out ≡ length dst
      → d ≤ dst_limit src + 19
      → Emits src 0 1 (length src) o [] (take d out) most
      → IsBody src dst (out, d)
  whole-IsBody out d o most size small e = (
    size,
    inr (
      small,
      subst (λ xs. All IsByte xs) (sym e.split) (e.octets bytes),
      rw (e.split) (decode_body-Emits src e.bytes o e.replays),
    ),
  )

  pub emit_remainder-IsBody :
      (l : Loop) → IsLast src (length dst) l → Ends (IsBody src dst) (emit_remainder src l)
  unfolding emit_remainder
  emit_remainder-IsBody l last =
      let w = last.written in
      let size = w.size in
      let small = last.small in
      let bounded = w.bounded in
      elim (Bool-cases (ltb l.next_emit (length src))) [
        | inr a ↦
            let full : l.next_emit ≡ length src = omega (arith, ltb→le _ _ a) in
            rw a (
              whole-IsBody l.dst l.d l.repeat w.most size small
                (subst (λ j. Emits src 0 1 j l.repeat [] (take l.d l.dst) w.most) full w.emits))
        | inl a ↦ elim (Bool-cases (ltb (dst_limit src) (l.d + length src - l.next_emit))) [
          | inl b ↦ rw (a, b) (size, inl refl)
          | inr b ↦
              let before = ltb→lt _ _ a in
              let limit = ltb→le _ _ b in
              let k = length src - l.next_emit in
              let rest : take k (drop l.next_emit src) ≡ drop l.next_emit src =
                take-length k (drop l.next_emit src) (omega (arith, length-drop l.next_emit src)) in
              let full : l.next_emit + k ≡ length src = omega arith in
              let written =
                emit_literal-Advance src fits l.next_emit k l.repeat l.dst l.d w.has_repeat
                  (omega arith) (omega arith) (omega arith) in
              rw (a, b)
                (Ends-weaken
                  (Advance src l.next_emit l.repeat (length src) l.repeat l.dst l.d (4 + k))
                  (IsBody src dst) _
                  (subst
                    (λ xs.
                      Ends
                        (Advance src l.next_emit l.repeat (length src) l.repeat l.dst l.d (4 + k))
                        (on_tail l.dst l.d (λ tail. emit_literal tail xs)))
                    rest
                    (subst
                      (λ j. Ends (Advance src l.next_emit l.repeat j l.repeat l.dst l.d (4 + k)) (
                        on_tail l.dst l.d
                          (λ tail. emit_literal tail (take k (drop l.next_emit src)))))
                      full written))
                  (λ (out, d) x.
                    whole-IsBody out d l.repeat (w.most + (4 + k)) (x.size ∙ size)
                      (omega (arith, x.near))
                      (Emits-trans src 0 1 l.next_emit l.repeat (length src) l.repeat []
                        (take l.d l.dst) (take d out) w.most (4 + k) w.emits x.emits)))
        ]
      ]

  module _ (short : length src ≤ 2 ^ 21 + 65536) (v : Variant) (good : IsVariant src v) where
    after_search-IsStep :
        (s : ℕ) (hit : Search)
        → 1 ≤ s
        → IsHit src (length dst) s hit
        → Ends (IsStep src (length dst) s) (after_search v src hit)
    unfolding after_search
    after_search-IsStep s (settled step) p h = h
    after_search-IsStep s (found c l) p h =
        after_found-IsStep src (length dst) fits bytes big roomy short v good s c l p h

    after_step-IsBody :
        (more : Loop → Outcome (List ℕ × ℕ)) (s : ℕ) (step : Step)
        → ((l : Loop) → IsReady src (length dst) l → s < l.s → Ends (IsBody src dst) (more l))
        → IsStep src (length dst) s step
        → Ends (IsBody src dst) (after_step more src step)
    unfolding after_step
    after_step-IsBody more s (emit_rest l) go h = emit_remainder-IsBody l h
    after_step-IsBody more s (bail out) go h = (h, inl refl)
    after_step-IsBody more s (again l) go h = go l h.0 h.1

    encode_loop-IsBody :
        (fuel : ℕ) (l : Loop)
        → IsReady src (length dst) l
        → length src < fuel + l.s
        → Ends (IsBody src dst) (encode_loop fuel v src l)
    unfolding encode_loop
    encode_loop-IsBody zero l ready f = absurd (omega (arith, ready.loads))
    encode_loop-IsBody (suc n) l ready f =
        Ends-bind (IsHit src (length dst) l.s) (IsBody src dst) _ _
          (search_step-IsHit src (length dst) fits bytes big roomy v good l ready)
          (λ hit h.
            Ends-bind (IsStep src (length dst) l.s) (IsBody src dst) _ _
              (after_search-IsStep l.s hit ready.started h)
              (λ step g.
                after_step-IsBody (encode_loop n v src) l.s step
                  (λ l' ready' p. encode_loop-IsBody n l' ready' (omega arith)) g))

    encode_variant-IsBody : Ends (IsBody src dst) (encode_variant v dst src)
    unfolding encode_variant
    encode_variant-IsBody =
        encode_loop-IsBody (length src) _
          (record {
            written = record {
              most = 0;
              emits = Emits-nil src 0 1 [];
              size = refl;
              has_repeat = omega arith;
              bounded = omega arith;
            };
            small = omega arith;
            repeat_le = omega arith;
            ordered = omega arith;
            started = omega arith;
            loads = omega arith;
            below = λ h. omega arith;
          })
          (omega arith)

narrow-IsVariant : (src : List ℕ) → length src ≤ 65536 → IsVariant src narrow
narrow-IsVariant src h = record {
  entry_le = λ x. omega arith;
  fuse = λ n k last offset len dst d p q r t u m room.
      emit_copy_lits2-Advance src (omega arith) n k last offset len dst d p q r t
        (omega (arith, m.inside, m.within)) u m room;
}

wide-IsVariant :
    (src : List ℕ) → length src ≤ max_block_size → length src ≤ 2 ^ 21 + 65536 → IsVariant src wide
wide-IsVariant src fits h = record {
  entry_le = λ x. omega arith;
  fuse = λ n k last offset len dst d p q r t u m room. elim (Bool-cases (leb offset (64 + 65535))) [
    | inl e ↦ rw e (
        emit_copy_lits2-Advance src fits n k last offset len dst d p q (omega arith) t
          (ground arith) u m room)
    | inr e ↦ rw e (
        emit_copy_lits3-Advance src fits n k last offset len dst d p (omega arith) (ground arith)
          (omega (arith, m.inside, m.within)) u m room)
  ];
}

-- For every source of bytes of up to 2^21 + 65536 bytes and every buffer that is at most a 32nd
-- of the source, less 13 bytes, shorter than the source, encodeBlock returns without a panic and
-- without exhausting its loops, and leaves the size of the buffer as it was: it returns 0, or the
-- size of a body of bytes at the start of the buffer, which the body loop of DecodeBlock decodes
-- to the source and which is at most 13 bytes longer than 31/32 of the source.
pub encode_block-IsBody :
    (dst src : List ℕ)
    → All IsByte src
    → length src ≤ 2 ^ 21 + 65536
    → length src + 13 ≤ length dst + length src / 2 ^ 5
    → Ends (IsBody src dst) (encode_block dst src)
unfolding encode_block encode_block_go encode_block_go_64k
encode_block-IsBody dst src bytes short room = elim (Bool-cases (ltb (length src) 16)) [
  | inl a ↦ rw a (refl, inl refl)
  | inr a ↦
      let big : 16 ≤ length src = ltb→le (length src) 16 a in
      let fits : length src ≤ max_block_size = omega arith in
      elim (Bool-cases (leb (length src) 65536)) [
        | inl b ↦
            rw (a, b)
              (encode_variant-IsBody src dst fits bytes big (omega arith) short narrow
                (narrow-IsVariant src (leb→le _ _ b)))
        | inr b ↦
            rw (a, b)
              (encode_variant-IsBody src dst fits bytes big (omega arith) short wide
                (wide-IsVariant src fits short))
      ]
]
