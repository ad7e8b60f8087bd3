-- ===== src/Level2/SearchRound.antt =====
-- A round of the search keeps the invariant, and what it finds is a match of four bytes.
use minlz.Prelude.{ℕ, ◌+◌, ◌-◌, ◌/◌, ◌^◌, ◌≤◌, ◌≡◌, ap, arith, List, length, All}
use minlz.Prelude.{true, ltb, ◌==◌, ==_iff, ◌&&◌, Bool-cases, inl, inr, ltb→le}
use minlz.Bytes.{IsByte, u32}
use minlz.Reference.Decoder.{max_block_size}
use minlz.Level1.Ends.{Ends, Ends-bind}
use minlz.Level1.Loads.{Agree, load64-Word}
use minlz.Level1.Search.{s_limit, dst_limit}
use minlz.Level2.Tables.{Variant}
use minlz.Level2.Search.{Better}
use minlz.Level2.Search.{search_step}
use minlz.Level2.Invariant.{IsVariant, IsReady, IsStep, IsHit}
use minlz.Level2.Repeat.{repeat_found-IsStep}
use minlz.Level2.Candidates.{both, is_repeat-Agree, low-Agree, long-lt, short-lt}
use minlz.Level2.Candidates.{direct-IsFound, candidates-IsHit}

module _ (src : List ℕ) (room : ℕ) (fits : length src ≤ max_block_size) (bytes : All IsByte src)
    (big : 16 ≤ length src) (roomy : dst_limit src + 19 ≤ room) (v : Variant)
    (good : IsVariant src v) where
  pub search_step-IsHit :
      (b : Better) → IsReady src room b → Ends (IsHit src room b.loop.s) (search_step v src b)
  unfolding search_step
  search_step-IsHit b ready =
      let l = b.loop in
      let next_s = l.s + (l.s - l.next_emit) / 2 ^ 7 + 1 in
      let r = ready.ready in
      elim (Bool-cases (ltb (s_limit src) next_s)) [
        | inl e ↦ rw e (record { written = r.written; small = omega (arith, r.small) })
        | inr e ↦
            let inside : next_s + 8 ≤ length src = omega (arith, ltb→le (s_limit src) next_s e) in
            let (cv, p, w) = load64-Word src bytes l.s r.loads in
            let cl = l.table (v.hash_long cv) in
            let cs = b.short (v.hash_short cv) in
            let bl = r.below (v.hash_long cv) in
            let bs = ready.short_below (v.hash_short cv) in
            let (x, px, wx) = load64-Word src bytes cl (omega (arith, r.loads)) in
            let (y, py, wy) = load64-Word src bytes cs (omega (arith, r.loads)) in
            rw (e, p, px, py)
              (elim (Bool-cases (v.is_after l.s cl && cv == x)) [
                | inl z ↦
                    let (after, same) = both (v.is_after l.s cl) (cv == x) z in
                    rw z (
                      direct-IsFound src room fits bytes big roomy v good b ready cv next_s w
                        (omega arith) inside cl bl
                        (omega (arith, good.after_near l.s cl (omega arith) after))
                        (low-Agree src l.s cl cv x w wx
                          (ap (λ (k : ℕ). u32 k) ((==_iff cv x).0 same))))
                | inr z ↦ rw z (
                    Ends-bind (λ q. q ≡ true → Agree src (l.s + 1) (l.s + 1 - l.repeat) 4)
                      (IsHit src room l.s) _ _
                      (is_repeat-Agree src l cv bytes r.loads r.repeat_le w)
                      (λ hit f. elim (Bool-cases hit) [
                        | inl a ↦ rw a (
                            Ends-bind (IsStep src room l.s) (IsHit src room l.s) _ _
                              (repeat_found-IsStep src room fits bytes big roomy v good l _ _ r
                                (long-lt src room fits bytes big roomy v good b ready cv)
                                (short-lt src room fits bytes big roomy v good b ready cv) (f a))
                              (λ step h. h))
                        | inr a ↦ rw a (
                            candidates-IsHit src room fits bytes big roomy v good b ready cv next_s
                              w (omega arith) inside cl cs x y bl bs wx wy)
                      ]))
              ])
      ]
