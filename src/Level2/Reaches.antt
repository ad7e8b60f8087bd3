-- ===== src/Level2/Reaches.antt =====
-- The forward extension of encode_l2.go ends where the bytes stop to agree, or with the source.
use minlz.Prelude.{ℕ, zero, suc, ◌+◌, ◌-◌, ◌/◌, ◌≤◌, ◌<◌, ◌≡◌, sym, ◌∙◌, ap, arith}
use minlz.Prelude.{bit_xor, List, length, some, All, get_elem?, get_elem?-lt}
use minlz.Prelude.{◌==◌, ltb, leb, Bool-cases, inl, inr, ==_iff, ltb→le, ltb→lt, leb→le, false}
use native.Mathlib.Nat.{add-zero}
use mathlib.Core.Option.{some_inj}
use minlz.Bytes.{IsByte}
use minlz.Decode.Machine.{Outcome}
use minlz.Level1.Ends.{Ends, Ends-weaken}
use minlz.Level1.Mismatch.{same_bytes, no_difference, trailing_zeros-same_bytes}
use minlz.Level1.Words.{trailing_zeros}
use minlz.Level1.Loads.{
  Word, Agree, Agree-suc, Agree-append, Agree-drop, Holds-Agree, load8_lem, load64-Word,
}
use minlz.Level1.Extend.{Forward, same_bytes-le, stop-reaches}
use minlz.Level2.Extend.{extend_round, extend_to_end}

-- The bytes agree up to `e`, and no further.
pub record Whole (src : List ℕ) (s c e : ℕ) : Type 0 where
  pub forward : s ≤ e
  pub within : e ≤ length src
  pub same : Agree src s c (e - s)
  pub reaches : (n : ℕ) → s + n ≤ length src → Agree src s c n → s + n ≤ e

Whole-end : (src : List ℕ) (s c : ℕ) → s ≤ length src → length src ≤ s → Whole src s c s
Whole-end src s c h k =
    let none : s - s ≡ 0 = omega arith in
    record {
      forward = omega arith;
      within = h;
      same = rw none (λ m l. absurd (omega arith));
      reaches = λ n l f. omega arith;
    }

Whole-more :
    (src : List ℕ) (s c e n : ℕ) → Agree src s c n → Whole src (s + n) (c + n) e → Whole src s c e
Whole-more src s c e n f x =
    let long = x.forward in
    let size : e - s ≡ n + (e - (s + n)) = omega arith in
    record {
      forward = omega arith;
      within = x.within;
      same = rw size (Agree-append src s c n (e - (s + n)) f x.same);
      reaches = λ m k g. elim (Bool-cases (ltb m n)) [
        | inl l ↦ omega (arith, ltb→lt m n l)
        | inr l ↦
            let ge = ltb→le m n l in
            let split : m ≡ n + (m - n) = omega arith in
            omega (
              arith,
              x.reaches (m - n) (omega arith) (Agree-drop src s c n (m - n) (rw split at g)),
            )
      ];
    }

-- A byte that differs.
Whole-differs :
    (src : List ℕ) (s c a b : ℕ)
    → s ≤ length src
    → get_elem? src s ≡ some a
    → get_elem? src c ≡ some b
    → (a == b) ≡ false
    → Whole src s c s
Whole-differs src s c a b h p q d =
    let none : s - s ≡ 0 = omega arith in
    record {
      forward = omega arith;
      within = h;
      same = rw none (λ m l. absurd (omega arith));
      reaches = λ n l f. elim (Bool-cases (ltb 0 n)) [
        | inr k ↦ omega (arith, ltb→le 0 n k)
        | inl k ↦
            let z = rw (add-zero s, add-zero c) at (f 0 (ltb→lt 0 n k)) in
            let same : a ≡ b = some_inj.0 (sym p ∙ z ∙ q) in absurd (ground arith)
      ];
    }

-- A word with a byte that differs.
Whole-stop :
    (src : List ℕ) (s c x y : ℕ)
    → s + 8 ≤ length src
    → Word src s x 8
    → Word src c y 8
    → (bit_xor x y == 0) ≡ false
    → Whole src s c (s + trailing_zeros 64 (bit_xor x y) / 8)
Whole-stop src s c x y h wx wy d =
    let t = same_bytes 8 x y in
    let t_le = same_bytes-le 8 x y in
    let size : s + t - s ≡ t = omega arith in
    rw (trailing_zeros-same_bytes 8 x y) (record {
      forward = omega arith;
      within = omega arith;
      same = rw size (Holds-Agree src 8 s c x y t wx.holds wy.holds (omega arith) t_le);
      reaches = λ n l f. omega (arith, stop-reaches src s c x y n wx wy d f);
    })

extend_round-Whole :
    (more : (s candidate : ℕ) → Outcome ℕ) (src : List ℕ) (s c : ℕ)
    → All IsByte src
    → s < length src
    → c ≤ s
    → ((k : ℕ)
        → 1 ≤ k
        → s + k ≤ length src
        → Ends (Whole src (s + k) (c + k)) (more (s + k) (c + k)))
    → Ends (Whole src s c) (extend_round more src s c)
unfolding extend_round
extend_round-Whole more src s c bytes h q go = elim (Bool-cases (ltb (length src) (s + 8))) [
  | inl e ↦
      let (a, f) = get_elem?-lt src s h in
      let (b, g) = get_elem?-lt src c (omega arith) in
      rw (e, load8_lem src s f, load8_lem src c g)
        (elim (Bool-cases (a == b)) [
          | inr z ↦ rw z (Whole-differs src s c a b (omega arith) f g z)
          | inl z ↦
              let one : Agree src s c 1 =
                Agree-suc src s c 0 (f ∙ ap some ((==_iff a b).0 z) ∙ sym g)
                  (λ k l. absurd (omega arith)) in
              rw z (
                Ends-weaken (Whole src (s + 1) (c + 1)) (Whole src s c) _
                  (go 1 (omega arith) (omega arith)) (λ t w. Whole-more src s c t 1 one w))
        ])
  | inr e ↦
      let room : s + 8 ≤ length src = ltb→le _ _ e in
      let (x, p, wx) = load64-Word src bytes s room in
      let (y, r, wy) = load64-Word src bytes c (omega arith) in
      rw (e, p, r)
        (elim (Bool-cases (bit_xor x y == 0)) [
          | inr d ↦ rw d (Whole-stop src s c x y room wx wy d)
          | inl d ↦
              let all : same_bytes 8 x y ≡ 8 = no_difference x y ((==_iff _ _).0 d) in
              let agree : Agree src s c 8 =
                Holds-Agree src 8 s c x y 8 wx.holds wy.holds (omega (arith, all)) (omega arith) in
              rw d (
                Ends-weaken (Whole src (s + 8) (c + 8)) (Whole src s c) _ (go 8 (omega arith) room)
                  (λ t w. Whole-more src s c t 8 agree w))
        ])
]

pub extend_to_end-Whole :
    (fuel : ℕ) (src : List ℕ) (s c : ℕ)
    → All IsByte src
    → s ≤ length src
    → c ≤ s
    → length src < fuel + s
    → Ends (Whole src s c) (extend_to_end fuel src s c)
unfolding extend_to_end
extend_to_end-Whole zero src s c bytes h q f = absurd (omega arith)
extend_to_end-Whole (suc n) src s c bytes h q f = elim (Bool-cases (leb (length src) s)) [
  | inl e ↦ rw e (Whole-end src s c h (leb→le _ _ e))
  | inr e ↦ rw e (
      extend_round-Whole (extend_to_end n src) src s c bytes (ground arith) q
        (λ k l m. extend_to_end-Whole n src (s + k) (c + k) bytes m (omega arith) (omega arith)))
]

-- As in the fastest encoder.
pub Whole-Forward :
    (src : List ℕ) (s c e : ℕ) → 1 ≤ length src → Whole src s c e → Forward src s c e
Whole-Forward src s c e h x = record {
  forward = x.forward;
  within = x.within;
  same = x.same;
  reaches = λ n f. elim (Bool-cases (ltb (length src) (s + n))) [
    | inr l ↦ inl (x.reaches n (ltb→le _ _ l) f)
    | inl l ↦
        let n' = length src - s in
        let up = x.forward in
        let inside = x.within in
        let most = x.reaches n' (omega arith) (λ k m. f k (omega (arith, ltb→lt _ _ l))) in
        inr (omega arith)
  ];
}
