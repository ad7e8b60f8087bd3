-- ===== src/Level1/AfterFound.antt =====
-- From the break of the search on: what was found is extended and emitted, and the loop goes on.
use minlz.Prelude.{ℕ, ◌+◌, ◌-◌, ◌^◌, ◌≤◌, ◌<◌, refl, arith}
use minlz.Prelude.{List, length, All}
use minlz.Prelude.{inl, inr, none, some}
use minlz.Bytes.{IsByte}
use minlz.Decode.Machine.{next}
use minlz.Reference.Decoder.{max_block_size}
use minlz.Level1.Ends.{Ends, Ends-bind}
use minlz.Level1.Loads.{Agree, Agree-drop}
use minlz.Level1.Extend.{Back, extend_back-Back, Forward, extend_forward-Forward}
use minlz.Level1.Advance.{Advance}
use minlz.Level1.Invariant.{
  IsEmitted, IsStep, IsFound, Advance-IsWritten, found-Agree, found-IsMatch,
}
use minlz.Level1.SearchRound.{IsVariant}
use minlz.Level1.Immediate.{immediate-IsStep}
use minlz.Level1.FoundRound.{Emitted, emit_found-Emitted}
use minlz.Level1.Search.{Variant, Loop, bail, s_limit, dst_limit}
use minlz.Level1.Found.{immediate, after_found}

module _ (src : List ℕ) (room : ℕ) (fits : length src ≤ max_block_size) (bytes : All IsByte src)
    (big : 16 ≤ length src) (roomy : dst_limit src + 19 ≤ room)
    (short : length src ≤ 2 ^ 21 + 65536) (v : Variant) (good : IsVariant src v) where
  -- The extension finds the four bytes again, unless the search ends there.
  found-reaches :
      (s next_emit candidate c base e : ℕ)
      → Agree src s candidate 4
      → Back src next_emit candidate s (c, base)
      → Forward src (base + 4) (c + 4) e
      → e < s_limit src
      → s + 4 ≤ e
  found-reaches s next_emit candidate c base e four x y before =
      let low = x.base_le in
      elim (y.reaches (s - base) (
        Agree-drop src base c 4 (s - base) (found-Agree src s next_emit candidate c base four x))) [
          | inl z ↦ omega arith
          | inr z ↦ absurd (omega arith)
        ]

  -- The variables after what was found is emitted up to `e`.
  found-IsEmitted :
      (from c0 c base e most : ℕ) (l : Loop) (r : List ℕ × ℕ)
      → IsFound src room from c0 l
      → Back src l.next_emit c0 l.s (c, base)
      → Forward src (base + 4) (c + 4) e
      → r.1 ≤ dst_limit src + 19
      → Advance src l.next_emit l.repeat e (base - c) l.dst l.d most r
      → IsEmitted src room
          (record { dst = r.0; d = r.1; table = l.table; s = e; next_emit = e; repeat = base - c })
  found-IsEmitted from c0 c base e most l (dst, d) fd x y small a =
      let l' : Loop = record {
        dst = dst;
        d = d;
        table = l.table;
        s = e;
        next_emit = e;
        repeat = base - c;
      } in
      let behind = fd.behind in
      let shift = x.shift in
      let far = y.forward in
      record {
        written = Advance-IsWritten src room l l' most fd.written a (omega arith) y.within;
        small = small;
        repeat_le = omega arith;
        emitted = refl;
        started = omega arith;
        below = λ before h.
            omega (arith, fd.below h, found-reaches l.s l.next_emit c0 c base e fd.same x y before);
      }

  pub after_found-IsStep :
      (from c0 : ℕ) (l : Loop)
      → 1 ≤ from
      → IsFound src room from c0 l
      → Ends (IsStep src room from) (after_found v src c0 l)
  unfolding after_found
  after_found-IsStep from c0 l one fd =
      let behind = fd.behind in
      let inside = fd.inside in
      let later = fd.later in
      let ordered = fd.ordered in
      let size = fd.written.size in
      Ends-bind (Back src l.next_emit c0 l.s) (IsStep src room from) _ _
        (extend_back-Back src l.next_emit c0 l.s ordered (omega arith) (omega arith))
        (λ (c, base) x.
          let low = x.base_le in
          let shift = x.shift in
          let after = x.not_before in
          Ends-bind (Forward src (base + 4) (c + 4)) (IsStep src room from) _ _
            (extend_forward-Forward (length src) src (base + 4) (c + 4) bytes (omega arith)
              (omega arith) (omega arith) (omega arith))
            (λ e y.
              let far = y.forward in
              Ends-bind (Emitted src room fits bytes big roomy short l e (base - c))
                (IsStep src room from) _ _
                (emit_found-Emitted src room fits bytes big roomy short v good l base (base - c) e
                  fd.written fd.small after far
                  (found-IsMatch src l.s l.next_emit c0 c base e behind fd.same x y))
                (λ o g.
                  elim o
                      as (λ o'.
                        Emitted src room fits bytes big roomy short l e (base - c) o'
                        → Ends (IsStep src room from) (elim o' [
                          | none ↦ next (bail l.dst)
                          | some (dst, d) ↦ immediate (length src) v src (record {
                            dst = dst;
                            d = d;
                            table = l.table;
                            s = e;
                            next_emit = e;
                            repeat = base - c;
                          })
                        ])) [
                          | none ↦ λ _. size
                          | some r ↦ λ (most, a, b).
                              immediate-IsStep src room fits bytes big roomy short v good
                                (length src) from _
                                (found-IsEmitted from c0 c base e most l r fd x y b a)
                                (λ before. omega (
                                  arith,
                                  found-reaches l.s l.next_emit c0 c base e fd.same x y before,
                                ))
                                (omega arith) y.within
                        ]
                    g)))
