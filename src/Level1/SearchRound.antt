-- ===== src/Level1/SearchRound.antt =====
-- A round of the search keeps the invariant, and what it finds is a match of four bytes.
use minlz.Prelude.{ℕ, ◌+◌, ◌-◌, ◌/◌, ◌^◌, ◌≤◌, ◌<◌, ◌≡◌, sym, arith}
use minlz.Prelude.{List, length, take, drop, All, true, ltb, ◌==◌, ==_iff}
use minlz.Prelude.{Bool-cases, inl, inr, ltb→le}
use mathlib.Core.Path.{subst}
use minlz.Bytes.{IsByte, u32}
use minlz.Reference.Decoder.{max_block_size}
use minlz.Reference.Encoder.{Table, put}
use minlz.Reference.RoundTrip.Source.{IsMatch}
use minlz.Emit.Buffer.{on_tail}
use minlz.Level1.Ends.{Ends, Ends-bind}
use minlz.Level1.Loads.{Agree, Word, Word-low, Word-Agree, load32-Word, load64-Word}
use minlz.Level1.Advance.{Advance}
use minlz.Level1.Invariant.{IsReady, IsStep, IsFound, IsHit, moved-IsWritten}
use minlz.Level1.Repeat.{repeat_found-IsStep}
use minlz.Level1.Search.{Variant, Loop, s_limit, dst_limit}
use minlz.Level1.Search.{is_match, try_candidates, search_step}

-- What the two functions share: an entry of the table is no later position than the one that was
-- put there, and fused copies are emitted like any others.
pub record IsVariant (src : List ℕ) (v : Variant) : Type 0 where
  pub entry_le : (x : ℕ) → v.entry x ≤ x
  pub fuse :
      (n k last offset len : ℕ) (dst : List ℕ) (d : ℕ)
      → 1 ≤ last
      → 1 ≤ k
      → k ≤ v.fused_lits
      → 64 ≤ offset
      → 4 ≤ len
      → IsMatch src (n + k) offset len
      → d + 11 ≤ length dst
      → Ends
          (Advance src n last (n + k + len) offset dst d 11)
          (on_tail dst d (λ tail. v.emit_fused tail (take k (drop n src)) offset len))

pub put-lt : (table : Table) (x y n h : ℕ) → ((k : ℕ) → table k < n) → y < n → put table x y h < n
unfolding put
put-lt table x y n h below l = ground (arith, below h)

-- The four bytes that are compared.
pub is_match-Agree :
    (v : Variant) (src : List ℕ) (from s c w : ℕ)
    → All IsByte src
    → c + 4 ≤ length src
    → Word src s w 4
    → Ends (λ b. b ≡ true → Agree src s c 4) (is_match v src from c w)
unfolding is_match
is_match-Agree v src from s c w bytes h x = elim (Bool-cases (v.in_reach from c)) [
  | inr e ↦ rw e (λ p. absurd (cc))
  | inl e ↦
      let (w', p, y) = load32-Word src bytes c h in
      rw (e, p)
        (λ q. Word-Agree src s c w x (subst (λ j. Word src c j 4) (sym ((==_iff w w').0 q)) y))
]

module _ (src : List ℕ) (room : ℕ) (fits : length src ≤ max_block_size) (bytes : All IsByte src)
    (big : 16 ≤ length src) (roomy : dst_limit src + 19 ≤ room) where
  module _ (v : Variant) (good : IsVariant src v) (l : Loop) (ready : IsReady src room l) where
    -- A candidate that matched.
    hit-IsFound :
        (s c : ℕ) (t : Table)
        → l.s ≤ s
        → s + 4 ≤ length src
        → c < s
        → ((h : ℕ) → t h < s + 3)
        → Agree src s c 4
        → IsFound src room l.s c (record l { table = t; s = s })
    hit-IsFound s c t later inside behind below same = record {
      written = moved-IsWritten src room l s t ready.written;
      small = ready.small;
      later = later;
      ordered = omega (arith, ready.ordered);
      behind = behind;
      inside = inside;
      same = same;
      below = below;
    }

    next_round-IsReady :
        (s : ℕ) (t : Table)
        → l.s < s
        → s + 8 ≤ length src
        → ((h : ℕ) → t h < s)
        → IsReady src room (record l { table = t; s = s })
    next_round-IsReady s t later inside below = record {
      written = moved-IsWritten src room l s t ready.written;
      small = ready.small;
      repeat_le = omega (arith, ready.repeat_le);
      ordered = omega (arith, ready.ordered);
      started = omega (arith, ready.started);
      loads = inside;
      below = below;
    }

    try_candidates-IsHit :
        (cv next_s : ℕ) (t : Table)
        → Word src l.s cv 8
        → l.s + 4 ≤ next_s
        → next_s ≤ s_limit src
        → ((h : ℕ) → t h < l.s + 2)
        → Ends (IsHit src room l.s) (try_candidates v src l cv next_s t)
    unfolding try_candidates
    try_candidates-IsHit cv next_s t w far near below =
        let hash2 = v.hash (cv / 2 ^ 16) in
        let after = put t hash2 (v.entry (l.s + 2)) in
        let below' : (h : ℕ) → after h < l.s + 3 = λ h.
          put-lt t hash2 (v.entry (l.s + 2)) (l.s + 3) h (λ k. omega (arith, below k))
            (omega (arith, good.entry_le (l.s + 2))) in
        let c0 = l.table (v.hash cv) in
        let c1 = l.table (v.hash (cv / 2 ^ 8)) in
        let c2 = t hash2 in
        let b0 = ready.below (v.hash cv) in
        let b1 = ready.below (v.hash (cv / 2 ^ 8)) in
        let b2 = below hash2 in
        let two : l.s + 1 + 1 ≡ l.s + 2 = omega arith in
        let shift : cv / 256 / 256 ≡ cv / 2 ^ 16 = omega arith in
        let w1 : Word src (l.s + 1) (u32 (cv / 2 ^ 8)) 4 =
          Word-low src (l.s + 1) (cv / 2 ^ 8) 3 w.holds.1 in
        let w2 : Word src (l.s + 2) (u32 (cv / 2 ^ 16)) 4 =
          Word-low src (l.s + 2) (cv / 2 ^ 16) 2 (rw (two, shift) at w.holds.1.1) in
        Ends-bind (λ b. b ≡ true → Agree src l.s c0 4) (IsHit src room l.s) _ _
          (is_match-Agree v src l.s l.s c0 (u32 cv) bytes (omega arith)
            (Word-low src l.s cv 4 w.holds))
          λ first f0. elim (Bool-cases first) [
            | inl e ↦ rw e (
                hit-IsFound l.s c0 t (omega arith) (omega arith) b0 (λ h. omega (arith, below h))
                  (f0 e))
            | inr e ↦ rw e (
                Ends-bind (λ b. b ≡ true → Agree src (l.s + 1) c1 4) (IsHit src room l.s) _ _
                  (is_match-Agree v src l.s (l.s + 1) c1 (u32 (cv / 2 ^ 8)) bytes (omega arith) w1)
                  λ second f1. elim (Bool-cases second) [
                    | inl e1 ↦ rw e1 (
                        hit-IsFound (l.s + 1) c1 after (omega arith) (omega arith) (omega arith)
                          (λ h. omega (arith, below' h)) (f1 e1))
                    | inr e1 ↦ rw e1 (
                        Ends-bind (λ b. b ≡ true → Agree src (l.s + 2) c2 4) (IsHit src room l.s) _
                          _
                          (is_match-Agree v src l.s (l.s + 2) c2 (u32 (cv / 2 ^ 16)) bytes
                            (omega arith) w2)
                          λ third f2. elim (Bool-cases third) [
                            | inl e2 ↦ rw e2 (
                                hit-IsFound (l.s + 2) c2 after (omega arith) (omega arith)
                                  (omega arith) (λ h. omega (arith, below' h)) (f2 e2))
                            | inr e2 ↦ rw e2 (
                              next_round-IsReady next_s after (omega arith) (omega arith)
                                  (λ h. omega (arith, below' h)),
                              omega arith,
                            )
                          ])
                  ])
          ]

    pub search_step-IsHit : Ends (IsHit src room l.s) (search_step v src l)
    unfolding search_step
    search_step-IsHit =
        let next_s = l.s + (l.s - l.next_emit) / 2 ^ v.skip_log + 4 in
        let loads = ready.loads in
        elim (Bool-cases (ltb (s_limit src) next_s)) [
          | inl e ↦ rw e (record { written = ready.written; small = omega (arith, ready.small) })
          | inr e ↦
              let near = ltb→le _ _ e in
              let (cv, p, w) = load64-Word src bytes l.s loads in
              let (x, q, y) =
                load32-Word src bytes (l.s + 1 - l.repeat)
                  (omega (arith, ready.written.has_repeat)) in
              let t =
                put (put l.table (v.hash cv) (v.entry l.s)) (v.hash (cv / 2 ^ 8))
                  (v.entry (l.s + 1)) in
              let below : (h : ℕ) → t h < l.s + 2 = λ h.
                put-lt (put l.table (v.hash cv) (v.entry l.s)) (v.hash (cv / 2 ^ 8))
                  (v.entry (l.s + 1)) (l.s + 2) h
                  (λ k.
                    put-lt l.table (v.hash cv) (v.entry l.s) (l.s + 2) k
                      (λ j. omega (arith, ready.below j)) (omega (arith, good.entry_le l.s)))
                  (omega (arith, good.entry_le (l.s + 1))) in
              rw (e, p, q)
                (elim (Bool-cases (u32 (cv / 2 ^ 8) == x)) [
                  | inr z ↦ rw z (try_candidates-IsHit cv next_s t w (omega arith) near below)
                  | inl z ↦
                      let w1 : Word src (l.s + 1) (u32 (cv / 2 ^ 8)) 4 =
                        Word-low src (l.s + 1) (cv / 2 ^ 8) 3 w.holds.1 in
                      let y' : Word src (l.s + 1 - l.repeat) (u32 (cv / 2 ^ 8)) 4 =
                        subst (λ j. Word src (l.s + 1 - l.repeat) j 4) (sym ((==_iff _ _).0 z)) y in
                      rw z (
                        Ends-bind (IsStep src room l.s) (IsHit src room l.s) _ _
                          (repeat_found-IsStep src room fits bytes big roomy l t ready below (
                            Word-Agree src (l.s + 1) (l.s + 1 - l.repeat) (u32 (cv / 2 ^ 8)) w1 y'))
                          (λ step h. h))
                ])
        ]
