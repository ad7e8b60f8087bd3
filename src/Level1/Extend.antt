-- ===== src/Level1/Extend.antt =====
-- The two loops that extend a match.
use minlz.Prelude.{ℕ, zero, suc, ◌+◌, ◌-◌, ◌/◌, ◌≤◌, ◌<◌, ◌≡◌, ◌⊎◌, sym, ◌∙◌, ap}
use minlz.Prelude.{arith, bit_xor, List, length, some, All, get_elem?, get_elem?-lt}
use minlz.Prelude.{◌==◌, ltb, leb, Bool-cases, inl, inr, ==_iff, false, ltb→le, ltb→lt}
use mathlib.Core.Path.{subst}
use minlz.Bytes.{IsByte}
use minlz.Level1.Words.{trailing_zeros}
use minlz.Level1.Mismatch.{
  same_bytes, trailing_zeros-same_bytes, same_bytes-all, xor_same, no_difference,
}
use minlz.Level1.Ends.{Ends, Ends-weaken}
use minlz.Level1.Loads.{
  Agree, Agree-suc, Agree-append, Agree-drop, Word, Holds-Agree, Agree-same_bytes, load8_lem,
  load64-Word,
}
use minlz.Level1.Search.{s_limit, extend_back, extend_forward}

-- Both positions moved back by the same number of bytes, which agree.
pub record Back (src : List ℕ) (next_emit i base : ℕ) (r : ℕ × ℕ) : Type 0 where
  pub not_before : next_emit ≤ r.1
  pub candidate_le : r.0 ≤ i
  pub base_le : r.1 ≤ base
  pub shift : r.1 + i ≡ r.0 + base
  pub same : Agree src r.1 r.0 (base - r.1)

Back-none :
    (src : List ℕ) (next_emit i base : ℕ) → next_emit ≤ base → Back src next_emit i base (i, base)
Back-none src next_emit i base h = record {
  not_before = h;
  candidate_le = omega arith;
  base_le = omega arith;
  shift = omega arith;
  same = λ k l. absurd (omega arith);
}

Back-more :
    (src : List ℕ) (next_emit i base : ℕ) (r : ℕ × ℕ)
    → get_elem? src base ≡ get_elem? src i
    → Back src next_emit i base r
    → Back src next_emit (suc i) (base + 1) r
Back-more src next_emit i base (c, b) e x =
    let low = x.base_le in
    let at_end : b + (base - b) ≡ base = omega arith in
    let at_end' : c + (base - b) ≡ i = omega (arith, x.shift) in
    let one : base + 1 - b ≡ base - b + 1 = omega arith in
    let last : Agree src (b + (base - b)) (c + (base - b)) 1 =
      rw (at_end, at_end') (Agree-suc src base i 0 e (λ k l. absurd (omega arith))) in
    record {
      not_before = x.not_before;
      candidate_le = omega (arith, x.candidate_le);
      base_le = omega arith;
      shift = omega (arith, x.shift);
      same = rw one (Agree-append src b c (base - b) 1 x.same last);
    }

pub extend_back-Back :
    (src : List ℕ) (next_emit i base : ℕ)
    → next_emit ≤ base
    → base ≤ length src
    → i ≤ base
    → Ends (Back src next_emit i base) (extend_back src next_emit i base)
unfolding extend_back
extend_back-Back src next_emit zero base h p q = Back-none src next_emit 0 base h
extend_back-Back src next_emit (suc i) base h p q = elim (Bool-cases (leb base next_emit)) [
  | inl e ↦ rw e (Back-none src next_emit (suc i) base h)
  | inr e ↦
      let pos : next_emit + 1 ≤ base = ground arith in
      let (a, f) = get_elem?-lt src i (omega arith) in
      let (b, g) = get_elem?-lt src (base - 1) (omega arith) in
      let whole : base - 1 + 1 ≡ base = omega arith in
      rw (e, load8_lem src i f, load8_lem src (base - 1) g)
        (elim (Bool-cases (a == b)) [
          | inr z ↦ rw z (Back-none src next_emit (suc i) base h)
          | inl z ↦
              let same = g ∙ ap some (sym ((==_iff a b).0 z)) ∙ sym f in
              rw z (
                Ends-weaken (Back src next_emit i (base - 1)) (Back src next_emit (suc i) base) _
                  (extend_back-Back src next_emit i (base - 1) (omega arith) (omega arith)
                    (omega arith))
                  (λ r x.
                    subst (λ j. Back src next_emit (suc i) j r) whole
                      (Back-more src next_emit i (base - 1) r same x)))
        ])
]

-- The match goes on up to `e`: as far as the bytes agree, unless less than a word is left there.
pub record Forward (src : List ℕ) (s c e : ℕ) : Type 0 where
  pub forward : s ≤ e
  pub within : e ≤ length src
  pub same : Agree src s c (e - s)
  pub reaches : (n : ℕ) → Agree src s c n → (s + n ≤ e) ⊎ (s_limit src < e)

pub same_bytes-le : (n x y : ℕ) → same_bytes n x y ≤ n
same_bytes-le zero x y = omega arith
same_bytes-le (suc n) x y = ground (arith, same_bytes-le n (x / 256) (y / 256))

-- Words that differ hold no more bytes that agree than those counted.
pub stop-reaches :
    (src : List ℕ) (s c x y n : ℕ)
    → Word src s x 8
    → Word src c y 8
    → (bit_xor x y == 0) ≡ false
    → Agree src s c n
    → n ≤ same_bytes 8 x y
stop-reaches src s c x y n wx wy d f =
    let t = same_bytes 8 x y in
    elim (Bool-cases (ltb t n)) [
      | inr e ↦ ltb→le t n e
      | inl e ↦ elim (Bool-cases (ltb t 8)) [
        | inl k ↦
            let more =
              Agree-same_bytes src 8 s c x y (t + 1) wx.holds wy.holds
                (λ m l. f m (omega (arith, ltb→lt t n e))) (omega (arith, ltb→lt t 8 k)) in
            absurd (omega (arith, more))
        | inr k ↦
            let zero_diff =
              xor_same x y (same_bytes-all 8 x y wx.bounded wy.bounded (ltb→le t 8 k)) in
            absurd (ground (arith, zero_diff))
      ]
    ]

-- A word with a byte that differs ends the match there.
Forward-stop :
    (src : List ℕ) (s c x y : ℕ)
    → s + 8 ≤ length src
    → Word src s x 8
    → Word src c y 8
    → (bit_xor x y == 0) ≡ false
    → Forward src s c (s + trailing_zeros 64 (bit_xor x y) / 8)
Forward-stop src s c x y h wx wy d =
    let t = same_bytes 8 x y in
    let t_le = same_bytes-le 8 x y in
    let size : s + t - s ≡ t = omega arith in
    rw (trailing_zeros-same_bytes 8 x y) (record {
      forward = omega arith;
      within = omega arith;
      same = rw size (Holds-Agree src 8 s c x y t wx.holds wy.holds (omega arith) t_le);
      reaches = λ n f. inl (omega (arith, stop-reaches src s c x y n wx wy d f));
    })

Forward-more :
    (src : List ℕ) (s c e : ℕ) → Agree src s c 8 → Forward src (s + 8) (c + 8) e → Forward src s c e
Forward-more src s c e f x =
    let long = x.forward in
    let size : e - s ≡ 8 + (e - (s + 8)) = omega arith in
    record {
      forward = omega arith;
      within = x.within;
      same = rw size (Agree-append src s c 8 (e - (s + 8)) f x.same);
      reaches = λ n g. elim (Bool-cases (ltb n 8)) [
        | inl k ↦ inl (omega (arith, ltb→lt n 8 k))
        | inr k ↦
            let n_ge = ltb→le n 8 k in
            let split : n ≡ 8 + (n - 8) = omega arith in
            elim (x.reaches (n - 8) (Agree-drop src s c 8 (n - 8) (rw split at g))) [
              | inl r ↦ inl (omega arith)
              | inr r ↦ inr r
            ]
      ];
    }

-- From a position and a candidate that is not behind it, in a source of 8 or more bytes, and with
-- a round for each byte that is left, the forward extension ends without a panic, at a position
-- inside of the source: the bytes agree up to there, and every longer agreement is followed to its
-- end, unless less than a word is left behind that position.
pub extend_forward-Forward :
    (fuel : ℕ) (src : List ℕ) (s c : ℕ)
    → All IsByte src
    → 8 ≤ length src
    → s ≤ length src
    → c ≤ s
    → length src < fuel + s
    → Ends (Forward src s c) (extend_forward fuel src s c)
unfolding extend_forward
extend_forward-Forward zero src s c bytes big h q f = absurd (omega arith)
extend_forward-Forward (suc n) src s c bytes big h q f = elim (Bool-cases (ltb (s_limit src) s)) [
  | inl e ↦
      let none : s - s ≡ 0 = omega arith in
      rw e (record {
        forward = omega arith;
        within = h;
        same = rw none (λ k l. absurd (omega arith));
        reaches = λ m g. inr (ltb→lt _ _ e);
      })
  | inr e ↦
      let room : s + 8 ≤ length src = omega (arith, ltb→le _ _ e) in
      let (x, p, wx) = load64-Word src bytes s room in
      let (y, r, wy) = load64-Word src bytes c (omega arith) in
      rw (e, p, r)
        (elim (Bool-cases (bit_xor x y == 0)) [
          | inr d ↦ rw d (Forward-stop src s c x y room wx wy d)
          | inl d ↦
              let none : bit_xor x y ≡ 0 = (==_iff _ _).0 d in
              let all : same_bytes 8 x y ≡ 8 = no_difference x y none in
              let agree : Agree src s c 8 =
                Holds-Agree src 8 s c x y 8 wx.holds wy.holds (omega (arith, all)) (omega arith) in
              rw d (
                Ends-weaken (Forward src (s + 8) (c + 8)) (Forward src s c) _
                  (extend_forward-Forward n src (s + 8) (c + 8) bytes big room (omega arith)
                    (omega arith))
                  (λ t z. Forward-more src s c t agree z))
        ])
]
