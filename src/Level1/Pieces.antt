-- ===== src/Level1/Pieces.antt =====
-- What is emitted for the part `src[n:e]` of a source, by its ends.
use minlz.Prelude.{ℕ, ◌+◌, ◌-◌, ◌^◌, ◌≤◌, ◌<◌, ◌≡◌, sym, arith, List, length, take, drop}
use mathlib.Core.Path.{subst}
use minlz.Decode.Machine.{Outcome, ◌>>=◌}
use minlz.Reference.Decoder.{max_block_size}
use minlz.Reference.Encoder.{slice}
use minlz.Reference.RoundTrip.Source.{IsMatch}
use minlz.Emit.Buffer.{on_tail}
use minlz.Emit.Write.{emit_literal, emit_repeat, emit_copy}
use minlz.Level1.Ends.{Ends, Ends-bind, Ends-weaken}
use minlz.Level1.Advance.{
  Advance, Advance-trans, emit_literal-Advance, emit_repeat-Advance, emit_copy-Advance,
}

module _ (src : List ℕ) (fits : length src ≤ max_block_size) where
  -- The literals `src[n:base]`.
  pub literals-Advance :
      (n base last : ℕ) (dst : List ℕ) (d : ℕ)
      → 1 ≤ last
      → n ≤ base
      → base < length src
      → d + (base - n) + 4 ≤ length dst
      → Ends
          (Advance src n last base last dst d (4 + (base - n)))
          (on_tail dst d (λ tail. emit_literal tail (slice src n base)))
  literals-Advance n base last dst d p q h r =
      let e : n + (base - n) ≡ base = omega arith in
      subst
        (λ j.
          Ends (Advance src n last j last dst d (4 + (base - n)))
            (on_tail dst d (λ tail. emit_literal tail (take (base - n) (drop n src)))))
        e (emit_literal-Advance src fits n (base - n) last dst d p (omega arith) (omega arith) r)

  -- The copy of `src[base:e]`.
  pub copy-Advance :
      (base last offset e : ℕ) (dst : List ℕ) (d : ℕ)
      → 1 ≤ last
      → base + 4 ≤ e
      → offset < 65536 + 2 ^ 21
      → IsMatch src base offset (e - base)
      → d + 7 ≤ length dst
      → Ends
          (Advance src base last e offset dst d 7)
          (on_tail dst d (λ tail. emit_copy tail offset (e - base)))
  copy-Advance base last offset e dst d p q r m h =
      let z : base + (e - base) ≡ e = omega arith in
      subst
        (λ j.
          Ends (Advance src base last j offset dst d 7)
            (on_tail dst d (λ tail. emit_copy tail offset (e - base))))
        z (emit_copy-Advance src fits base last offset (e - base) dst d p r (omega arith) m h)

  -- The repeat of `src[base:e]`.
  pub repeat-Advance :
      (base last e : ℕ) (dst : List ℕ) (d : ℕ)
      → base < e
      → IsMatch src base last (e - base)
      → d + 4 ≤ length dst
      → Ends
          (Advance src base last e last dst d 4)
          (on_tail dst d (λ tail. emit_repeat tail (e - base)))
  repeat-Advance base last e dst d p m h =
      let z : base + (e - base) ≡ e = omega arith in
      subst
        (λ j.
          Ends (Advance src base last j last dst d 4)
            (on_tail dst d (λ tail. emit_repeat tail (e - base))))
        z (emit_repeat-Advance src fits base last (e - base) dst d (omega arith) m h)

  -- The literals `src[n:base]`, and the copy of `src[base:e]`.
  pub literals_copy-Advance :
      (n base last offset e : ℕ) (dst : List ℕ) (d : ℕ)
      → 1 ≤ last
      → n ≤ base
      → base + 4 ≤ e
      → offset < 65536 + 2 ^ 21
      → IsMatch src base offset (e - base)
      → d + (base - n) + 11 ≤ length dst
      → Ends (Advance src n last e offset dst d (4 + (base - n) + 7)) (
          on_tail dst d (λ tail. emit_literal tail (slice src n base)) >>= λ r.
          on_tail r.0 r.1 (λ tail. emit_copy tail offset (e - base)))
  literals_copy-Advance n base last offset e dst d p q far r m h =
      let within = m.within in
      Ends-bind (Advance src n last base last dst d (4 + (base - n)))
        (Advance src n last e offset dst d (4 + (base - n) + 7)) _ _
        (literals-Advance n base last dst d p q (omega arith) (omega arith))
        (λ (dst', d') a.
          let near = a.near in
          let size = a.size in
          Ends-weaken (Advance src base last e offset dst' d' 7) _ _
            (copy-Advance base last offset e dst' d' p far r m (omega arith))
            (λ o b.
              Advance-trans src n last base last e offset dst d (4 + (base - n)) 7 (dst', d') o a
                b))

-- A fused copy `f` of `src[base:e]` with the literals `src[n:base]`, which is stated by its lengths.
pub fused-Advance :
    (src : List ℕ) (f : List ℕ → Outcome (List ℕ × ℕ)) (n base last offset e : ℕ) (dst : List ℕ)
    (d : ℕ)
    → n ≤ base
    → base ≤ e
    → IsMatch src base offset (e - base)
    → (IsMatch src (n + (base - n)) offset (e - base)
        → Ends (Advance src n last (n + (base - n) + (e - base)) offset dst d 11) (on_tail dst d f))
    → Ends (Advance src n last e offset dst d 11) (on_tail dst d f)
fused-Advance src f n base last offset e dst d p q m h =
    let x : n + (base - n) ≡ base = omega arith in
    let y : n + (base - n) + (e - base) ≡ e = omega arith in
    subst (λ j. Ends (Advance src n last j offset dst d 11) (on_tail dst d f)) y
      (h (subst (λ j. IsMatch src j offset (e - base)) (sym x) m))
