-- ===== src/Level2/Repeat.antt =====
-- A repeat that the search finds is emitted, with the literals before it, and indexed.
use minlz.Prelude.{ℕ, ◌+◌, ◌-◌, ◌≤◌, ◌<◌, arith, List, length, All, ltb, leb}
use minlz.Prelude.{Bool-cases, inl, inr, ltb→le, if◌then◌else◌}
use minlz.Bytes.{IsByte}
use minlz.Decode.Machine.{next, ◌>>=◌}
use minlz.Reference.Decoder.{max_block_size}
use minlz.Reference.Encoder.{Table}
use minlz.Level1.Ends.{Ends, Ends-bind}
use minlz.Level1.Loads.{Agree}
use minlz.Level1.Extend.{Back, extend_back-Back}
use minlz.Level1.Advance.{Advance, Advance-trans}
use minlz.Level1.Invariant
use minlz.Level1.Pieces.{literals-Advance, repeat-Advance}
use minlz.Level1.Repeat.{repeat-IsMatch}
use minlz.Level1.Search.{Loop, s_limit, dst_limit}
use minlz.Level2.Tables.{Variant, index_between}
use minlz.Level2.Search.{emit_rest, again, repeat_found}
use minlz.Level2.Reaches.{Whole, extend_to_end-Whole, Whole-Forward}
use minlz.Level2.Below.{Below, index_between-Below}
use minlz.Level2.Invariant.{IsVariant, IsStep}

module _ (src : List ℕ) (room : ℕ) (fits : length src ≤ max_block_size) (bytes : All IsByte src)
    (big : 16 ≤ length src) (roomy : dst_limit src + 19 ≤ room) (v : Variant)
    (good : IsVariant src v) where
  -- What follows the emission up to `e`.
  repeat-IsStep :
      (l : Loop) (t short : Table) (base e d : ℕ) (dst : List ℕ) (most : ℕ)
      → Invariant.IsReady src room l
      → ((h : ℕ) → t h < l.s + 1)
      → ((h : ℕ) → short h < l.s + 1)
      → base ≤ l.s + 1
      → l.s + 5 ≤ e
      → e ≤ length src
      → d ≤ dst_limit src + 8
      → Advance src l.next_emit l.repeat e l.repeat l.dst l.d most (dst, d)
      → Ends (IsStep src room l.s) (
          if leb (s_limit src) e
          then next (emit_rest (record l { dst = dst; d = d; table = t; s = e; next_emit = e }))
          else (do
            t' ←
                index_between
                  (length src)
                  v
                  src
                  (base + 1)
                  (e - 2)
                  (record { long = t; short = short })
            next (
                again (record {
                  loop = record l { dst = dst; d = d; table = t'.long; s = e; next_emit = e };
                  short = t'.short;
                }))))
  repeat-IsStep l t short base e d dst most ready below below' low far inside small a =
      let l' : Table → Loop = λ x. record l { dst = dst; d = d; table = x; s = e; next_emit = e } in
      let written : (x : Table) → Invariant.IsWritten src room (l' x) = λ x.
        Invariant.Advance-IsWritten src room l (l' x) most ready.written a ready.written.has_repeat
          inside in
      elim (Bool-cases (leb (s_limit src) e)) [
        | inl x ↦ rw x (record { written = written t; small = omega arith })
        | inr x ↦
            let before : e < s_limit src = ground arith in
            rw x (
              Ends-bind (Below e) (IsStep src room l.s) _ _
                (index_between-Below src bytes v good.entry_le (length src) (base + 1) (e - 2) e
                  (record { long = t; short = short }) (omega arith) (omega arith) (omega arith)
                  (omega arith)
                  (record {
                    long = λ h. omega (arith, below h);
                    short = λ h. omega (arith, below' h);
                  }))
                (λ t' b. (
                  record {
                    ready = record {
                      written = written t'.long;
                      small = small;
                      repeat_le = omega (arith, ready.repeat_le);
                      ordered = omega arith;
                      started = omega arith;
                      loads = omega arith;
                      below = b.long;
                    };
                    short_below = b.short;
                  },
                  omega arith,
                )))
      ]

  pub repeat_found-IsStep :
      (l : Loop) (t short : Table)
      → Invariant.IsReady src room l
      → ((h : ℕ) → t h < l.s + 1)
      → ((h : ℕ) → short h < l.s + 1)
      → Agree src (l.s + 1) (l.s + 1 - l.repeat) 4
      → Ends
          (IsStep src room l.s)
          (repeat_found v src (record { loop = record l { table = t }; short = short }))
  unfolding repeat_found
  repeat_found-IsStep l t short ready below below' four =
      let loads = ready.loads in
      let le = ready.repeat_le in
      let one = ready.written.has_repeat in
      let size = ready.written.size in
      let ordered = ready.ordered in
      Ends-bind (Back src l.next_emit (l.s + 1 - l.repeat) (l.s + 1)) (IsStep src room l.s) _ _
        (extend_back-Back src l.next_emit (l.s + 1 - l.repeat) (l.s + 1) (omega arith) (omega arith)
          (omega arith))
        (λ (c, base) x.
          let low = x.base_le in
          let not_before = x.not_before in
          elim (Bool-cases (ltb (dst_limit src) (l.d + (base - l.next_emit)))) [
            | inl z ↦ rw z size
            | inr z ↦
                let limit = ltb→le _ _ z in
                let k = 4 + (base - l.next_emit) in
                rw z (
                  Ends-bind (Advance src l.next_emit l.repeat base l.repeat l.dst l.d k)
                    (IsStep src room l.s) _ _
                    (literals-Advance src fits l.next_emit base l.repeat l.dst l.d one not_before
                      (omega arith) (omega arith))
                    (λ (dst, d) a.
                      let near = a.near in
                      let same_size = a.size in
                      Ends-bind (Whole src (l.s + 5) (l.s - l.repeat + 5)) (IsStep src room l.s) _ _
                        (extend_to_end-Whole (length src) src (l.s + 5) (l.s - l.repeat + 5) bytes
                          (omega arith) (omega arith) (omega arith))
                        (λ e w.
                          let y =
                            Whole-Forward src (l.s + 5) (l.s - l.repeat + 5) e (omega arith) w in
                          let up = w.forward in
                          Ends-bind (Advance src base l.repeat e l.repeat dst d 4)
                            (IsStep src room l.s) _ _
                            (repeat-Advance src fits base l.repeat e dst d (omega arith)
                              (repeat-IsMatch src room fits bytes big roomy l.s l.repeat l.next_emit
                                c base e one le four x y)
                              (omega arith))
                            (λ (dst', d') b.
                              repeat-IsStep l t short base e d' dst' (k + 4) ready below below' low
                                up w.within (omega (arith, b.near))
                                (Advance-trans src l.next_emit l.repeat base l.repeat e l.repeat
                                  l.dst l.d k 4 (dst, d) (dst', d') a b)))))
          ])
