-- ===== src/Level1/FoundRound.antt =====
-- What is emitted for a match, and the loop over the matches right behind it.
use minlz.Prelude.{ℕ, ◌+◌, ◌-◌, ◌^◌, ◌≤◌, ◌<◌, ◌≡◌, sym, arith}
use minlz.Prelude.{List, length, All, ltb, ◌==◌, ==_iff}
use minlz.Prelude.{Bool-cases, inl, inr, ltb→le, ◌||◌, Option, none, some}
use mathlib.Core.Path.{subst}
use minlz.Bytes.{IsByte}
use minlz.Reference.Decoder.{max_block_size}
use minlz.Reference.Encoder.{slice}
use minlz.Reference.RoundTrip.Source.{IsMatch}
use minlz.Emit.Buffer.{on_tail}
use minlz.Decode.Machine.{next}
use minlz.Emit.Write.{emit_literal, emit_copy}
use minlz.Level1.Ends.{Ends, Ends-bind, Ends-assoc}
use minlz.Level1.Advance.{Advance}
use minlz.Level1.Invariant.{IsWritten}
use minlz.Level1.Pieces.{copy-Advance, literals_copy-Advance, fused-Advance}
use minlz.Level1.SearchRound.{IsVariant}
use minlz.Level1.Search.{Variant, Loop, dst_limit}
use minlz.Level1.Found.{emit_found}

module _ (src : List ℕ) (room : ℕ) (fits : length src ≤ max_block_size) (bytes : All IsByte src)
    (big : 16 ≤ length src) (roomy : dst_limit src + 19 ≤ room)
    (short : length src ≤ 2 ^ 21 + 65536) where
  -- The whole operation: a bail out, or what was written.
  abbrev pub Emitted : (l : Loop) (e offset : ℕ) → Option (List ℕ × ℕ) → Type 0
  Emitted l e offset none = Unit {0}
  Emitted l e offset (some r) =
      (most : ℕ) × Advance src l.next_emit l.repeat e offset l.dst l.d most r
      × (r.1 ≤ dst_limit src + 19)

  module _ (v : Variant) (good : IsVariant src v) where
    pub emit_found-Emitted :
        (l : Loop) (base offset e : ℕ)
        → IsWritten src room l
        → l.d ≤ dst_limit src + 8
        → l.next_emit ≤ base
        → base + 4 ≤ e
        → IsMatch src base offset (e - base)
        → Ends (Emitted l e offset) (emit_found v src l base offset e)
    unfolding emit_found
    emit_found-Emitted l base offset e w small le far m =
        let size = w.size in
        let inside = m.within in
        let reach : offset < 65536 + 2 ^ 21 = omega (arith, m.inside) in
        elim (Bool-cases (l.next_emit == base)) [
          | inl x ↦
              let same : base ≡ l.next_emit = sym ((==_iff _ _).0 x) in
              rw x (
                Ends-bind (Advance src base l.repeat e offset l.dst l.d 7) (Emitted l e offset) _ _
                  (copy-Advance src fits base l.repeat offset e l.dst l.d w.has_repeat far reach m
                    (omega arith))
                  (λ r a. (
                    7,
                    subst (λ j. Advance src j l.repeat e offset l.dst l.d 7 r) same a,
                    omega (arith, a.near),
                  )))
          | inr x ↦
              let before : l.next_emit < base = ground arith in
              elim (Bool-cases (ltb v.fused_lits (base - l.next_emit) || ltb offset 64)) [
                | inr y ↦
                    rw (x, y)
                      (Ends-bind (Advance src l.next_emit l.repeat e offset l.dst l.d 11)
                        (Emitted l e offset) _ _
                        (fused-Advance src
                          (λ tail. v.emit_fused tail (slice src l.next_emit base) offset (e - base))
                          l.next_emit base l.repeat offset e l.dst l.d (omega arith) (omega arith) m
                          (λ m'.
                            good.fuse l.next_emit (base - l.next_emit) l.repeat offset (e - base)
                              l.dst l.d w.has_repeat (omega arith) (ground arith) (ground arith)
                              (omega arith) m' (omega arith)))
                        (λ r a. (11, a, omega (arith, a.near))))
                | inl y ↦ elim (Bool-cases (ltb (dst_limit src) (l.d + (e - l.next_emit)))) [
                  | inl z ↦ rw (x, y, z) tt
                  | inr z ↦
                      let limit = ltb→le _ _ z in
                      rw (x, y, z)
                        (Ends-assoc (Emitted l e offset)
                          (on_tail l.dst l.d
                            (λ tail. emit_literal tail (slice src l.next_emit base)))
                          (λ r. on_tail r.0 r.1 (λ tail. emit_copy tail offset (e - base)))
                          (λ out. next (some out))
                          (Ends-bind
                            (Advance src l.next_emit l.repeat e offset l.dst l.d
                              (4 + (base - l.next_emit) + 7))
                            (Emitted l e offset) _ (λ out. next (some out))
                            (literals_copy-Advance src fits l.next_emit base l.repeat offset e l.dst
                              l.d w.has_repeat le far reach m (omega arith))
                            (λ r a. (4 + (base - l.next_emit) + 7, a, omega (arith, a.near)))))
                ]
              ]
        ]
