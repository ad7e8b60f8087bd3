-- ===== src/Level1/Repeat.antt =====
-- A repeat that the search finds is emitted, with the literals before it.
use minlz.Prelude.{ℕ, ◌+◌, ◌-◌, ◌≤◌, ◌<◌, ◌≡◌, arith}
use minlz.Prelude.{List, length, All, if◌then◌else◌, ltb, leb, Bool-cases, inl, inr, ltb→le}
use mathlib.Core.Path.{subst}
use minlz.Bytes.{IsByte}
use minlz.Decode.Machine.{next}
use minlz.Reference.Decoder.{max_block_size}
use minlz.Reference.Encoder.{Table}
use minlz.Reference.RoundTrip.Source.{IsMatch}
use minlz.Level1.Ends.{Ends, Ends-bind}
use minlz.Level1.Loads.{Agree, Agree-join}
use minlz.Level1.Extend.{Back, extend_back-Back, Forward, extend_forward-Forward}
use minlz.Level1.Advance.{Advance, Advance-trans}
use minlz.Level1.Pieces.{literals-Advance, repeat-Advance}
use minlz.Level1.Invariant.{Agree-IsMatch, IsWritten, IsReady, IsStep, Advance-IsWritten}
use minlz.Level1.Search.{Loop, emit_rest, again, s_limit, dst_limit}
use minlz.Level1.Search.{repeat_found}

module _ (src : List ℕ) (room : ℕ) (fits : length src ≤ max_block_size) (bytes : All IsByte src)
    (big : 16 ≤ length src) (roomy : dst_limit src + 19 ≤ room) where
  -- The parts of a repeat: extended back from `s + 1`, the four bytes there, and on to `e`.
  pub repeat-IsMatch :
      (s last next_emit c base e : ℕ)
      → 1 ≤ last
      → last ≤ s
      → Agree src (s + 1) (s + 1 - last) 4
      → Back src next_emit (s + 1 - last) (s + 1) (c, base)
      → Forward src (s + 5) (s - last + 5) e
      → IsMatch src base last (e - base)
  repeat-IsMatch s last next_emit c base e p q four x y =
      let low = x.base_le in
      let shift = x.shift in
      let up = y.forward in
      let offset : base - c ≡ last = omega arith in
      let size : s + 5 - (s + 1) ≡ 4 = omega arith in
      let tail : Agree src (s + 1) (s + 1 - last) (e - (s + 1)) =
        Agree-join src (s + 1) (s + 5) e (s + 1 - last) (s - last + 5) (omega arith) up
          (omega arith) (rw size four) y.same in
      let all : Agree src base c (e - base) =
        Agree-join src base (s + 1) e c (s + 1 - last) low (omega arith) (omega arith) x.same
          tail in
      subst (λ o. IsMatch src base o (e - base)) offset
        (Agree-IsMatch src base c (e - base) (omega arith) (omega (arith, y.within)) all)

  repeat-IsStep :
      (l : Loop) (t : Table) (e d : ℕ) (dst : List ℕ) (most : ℕ)
      → IsReady src room l
      → ((h : ℕ) → t h < l.s + 2)
      → l.s + 5 ≤ e
      → e ≤ length src
      → d ≤ dst_limit src + 8
      → Advance src l.next_emit l.repeat e l.repeat l.dst l.d most (dst, d)
      → Ends (IsStep src room l.s) (
          next (
            if leb (s_limit src) e
            then emit_rest (record l { dst = dst; d = d; table = t; s = e; next_emit = e })
            else again (record l { dst = dst; d = d; table = t; s = e; next_emit = e })))
  repeat-IsStep l t e d dst most ready below far inside small a =
      let l' : Loop = record l { dst = dst; d = d; table = t; s = e; next_emit = e } in
      let written : IsWritten src room l' =
        Advance-IsWritten src room l l' most ready.written a ready.written.has_repeat inside in
      elim (Bool-cases (leb (s_limit src) e)) [
        | inl x ↦ rw x (record { written = written; small = omega arith })
        | inr x ↦ rw x (
          record {
            written = written;
            small = small;
            repeat_le = omega (arith, ready.repeat_le);
            ordered = omega arith;
            started = omega arith;
            loads = ground arith;
            below = λ h. omega (arith, below h);
          },
          omega arith,
        )
      ]

  pub repeat_found-IsStep :
      (l : Loop) (t : Table)
      → IsReady src room l
      → ((h : ℕ) → t h < l.s + 2)
      → Agree src (l.s + 1) (l.s + 1 - l.repeat) 4
      → Ends (IsStep src room l.s) (repeat_found src (record l { table = t }))
  unfolding repeat_found
  repeat_found-IsStep l t ready below four =
      let loads = ready.loads in
      let le = ready.repeat_le in
      let one = ready.written.has_repeat in
      let size = ready.written.size in
      let ordered = ready.ordered in
      Ends-bind (Back src l.next_emit (l.s + 1 - l.repeat) (l.s + 1)) (IsStep src room l.s) _ _
        (extend_back-Back src l.next_emit (l.s + 1 - l.repeat) (l.s + 1) (omega arith) (omega arith)
          (omega arith))
        (λ (c, base) x.
          let low = x.base_le in
          let not_before = x.not_before in
          elim (Bool-cases (ltb (dst_limit src) (l.d + (base - l.next_emit)))) [
            | inl z ↦ rw z size
            | inr z ↦
                let limit = ltb→le _ _ z in
                rw z (
                  Ends-bind
                    (Advance src l.next_emit l.repeat base l.repeat l.dst l.d
                      (4 + (base - l.next_emit)))
                    (IsStep src room l.s) _ _
                    (literals-Advance src fits l.next_emit base l.repeat l.dst l.d one not_before
                      (omega arith) (omega arith))
                    (λ (dst, d) a.
                      let near = a.near in
                      let same_size = a.size in
                      Ends-bind (Forward src (l.s + 5) (l.s - l.repeat + 5)) (IsStep src room l.s) _
                        _
                        (extend_forward-Forward (length src) src (l.s + 5) (l.s - l.repeat + 5)
                          bytes (omega arith) (omega arith) (omega arith) (omega arith))
                        (λ e y.
                          let up = y.forward in
                          Ends-bind (Advance src base l.repeat e l.repeat dst d 4)
                            (IsStep src room l.s) _ _
                            (repeat-Advance src fits base l.repeat e dst d (omega arith)
                              (repeat-IsMatch l.s l.repeat l.next_emit c base e one le four x y)
                              (omega arith))
                            (λ (dst', d') b.
                              repeat-IsStep l t e d' dst' (4 + (base - l.next_emit) + 4) ready below
                                up y.within (omega (arith, b.near))
                                (Advance-trans src l.next_emit l.repeat base l.repeat e l.repeat
                                  l.dst l.d (4 + (base - l.next_emit)) 4 (dst, d) (dst', d') a
                                  b)))))
          ])
