-- ===== src/Level2/Candidates.antt =====
-- The candidates of a round of the search: those that pass a test are matches of four bytes.
use minlz.Prelude.{ℕ, ◌+◌, ◌-◌, ◌/◌, ◌^◌, ◌≤◌, ◌<◌, ◌≡◌, refl, sym, arith, List, length, All}
use minlz.Prelude.{Bool, true, false, leb, ◌==◌, ==_iff, ◌&&◌, if◌then◌else◌, Bool-cases, inl, inr}
use mathlib.Core.Path.{subst}
use minlz.Bytes.{IsByte, u32}
use minlz.Reference.Decoder.{max_block_size}
use minlz.Reference.Encoder.{Table, put}
use minlz.Level1.Ends.{Ends, Ends-bind}
use minlz.Level1.Loads.{Agree, Word, Word-low, Word-Agree, load32-Word, load64-Word}
use minlz.Level1.Invariant
use minlz.Level1.SearchRound.{put-lt}
use minlz.Level1.Search.{Loop, dst_limit}
use minlz.Level2.Tables.{Variant}
use minlz.Decode.Machine.{next}
use minlz.Level2.Search.{Better, again, settled, found, is_repeat, indexed, is_next, try_next}
use minlz.Level2.Invariant.{IsVariant, IsReady, IsFound, IsHit}

pub both : (a b : Bool) → (a && b) ≡ true → (a ≡ true) × (b ≡ true)
both true b h = (refl, h)
both false b h = absurd (cc)

pub is_repeat-Agree :
    (src : List ℕ) (l : Loop) (cv : ℕ)
    → All IsByte src
    → l.s + 8 ≤ length src
    → l.repeat ≤ l.s
    → Word src l.s cv 8
    → Ends (λ b. b ≡ true → Agree src (l.s + 1) (l.s + 1 - l.repeat) 4) (is_repeat src l cv)
unfolding is_repeat
is_repeat-Agree src l cv bytes h q x = elim (Bool-cases (leb 1 l.repeat)) [
  | inr e ↦ rw e (λ p. absurd (cc))
  | inl e ↦
      let (w, p, y) = load64-Word src bytes (l.s - l.repeat) (omega arith) in
      let there : l.s - l.repeat + 1 ≡ l.s + 1 - l.repeat = omega arith in
      rw (e, p)
        (λ r.
          let same : u32 (w / 2 ^ 8) ≡ u32 (cv / 2 ^ 8) = omega (arith, (==_iff _ _).0 r) in
          let x' = Word-low src (l.s + 1) (cv / 2 ^ 8) 3 x.holds.1 in
          let y' = Word-low src (l.s - l.repeat + 1) (w / 2 ^ 8) 3 y.holds.1 in
          Word-Agree src (l.s + 1) (l.s + 1 - l.repeat) (u32 (cv / 2 ^ 8)) x' (
            subst (λ j. Word src j (u32 (cv / 2 ^ 8)) 4) there
              (subst (λ j. Word src (l.s - l.repeat + 1) j 4) same y')))
]

-- Words with the same low half.
pub low-Agree :
    (src : List ℕ) (s c x y : ℕ) → Word src s x 8 → Word src c y 8 → u32 x ≡ u32 y → Agree src s c 4
low-Agree src s c x y wx wy e =
    Word-Agree src s c (u32 x) (Word-low src s x 4 wx.holds)
      (subst (λ j. Word src c j 4) (sym e) (Word-low src c y 4 wy.holds))

module _ (src : List ℕ) (room : ℕ) (fits : length src ≤ max_block_size) (bytes : All IsByte src)
    (big : 16 ≤ length src) (roomy : dst_limit src + 19 ≤ room) (v : Variant)
    (good : IsVariant src v) (b : Better) (ready : IsReady src room b) where
  abbrev l : Loop
  l = b.loop

  hit-IsFound :
      (s c next_s : ℕ) (t short : Table)
      → l.s ≤ s
      → s ≤ next_s
      → l.s < next_s
      → s + 4 ≤ length src
      → c < s
      → s < c + (65536 + 2 ^ 21)
      → ((h : ℕ) → t h < s + 2)
      → ((h : ℕ) → t h < next_s + 1)
      → ((h : ℕ) → short h < s + 1)
      → Agree src s c 4
      → IsFound src room l.s c next_s
          (record { loop = record l { table = t; s = s }; short = short })
  hit-IsFound s c next_s t short later le next_later inside behind near below below_next below'
        same =
      let r = ready.ready in
      record {
        written = Invariant.moved-IsWritten src room l s t r.written;
        small = r.small;
        later = later;
        ordered = omega (arith, r.ordered);
        repeat_le = omega (arith, r.repeat_le);
        next_later = next_later;
        next_le = le;
        behind = behind;
        near = near;
        inside = inside;
        same = same;
        below = below;
        below_next = below_next;
        short_below = below';
      }

  next-IsReady :
      (next_s : ℕ) (t short : Table)
      → l.s < next_s
      → next_s + 8 ≤ length src
      → ((h : ℕ) → t h < l.s + 1)
      → ((h : ℕ) → short h < l.s + 1)
      → IsReady src room (record { loop = record l { table = t; s = next_s }; short = short })
  next-IsReady next_s t short later inside below below' =
      let r = ready.ready in
      record {
        ready = record {
          written = Invariant.moved-IsWritten src room l next_s t r.written;
          small = r.small;
          repeat_le = omega (arith, r.repeat_le);
          ordered = omega (arith, r.ordered);
          started = omega (arith, r.started);
          loads = inside;
          below = λ h. omega (arith, below h);
        };
        short_below = λ h. omega (arith, below' h);
      }

  is_next-Agree :
      (c w : ℕ)
      → c + 4 ≤ length src
      → l.s < length src
      → Word src (l.s + 1) w 4
      → Ends
          (λ p. p ≡ true → Agree src (l.s + 1) c 4 × (l.s + 1 < c + (65536 + 2 ^ 21)))
          (is_next v src l.s c w)
  unfolding is_next
  is_next-Agree c w h q w1 = elim (Bool-cases (v.is_after l.s c)) [
    | inr e ↦ rw e (λ p. absurd (cc))
    | inl e ↦
        let (x, p, y) = load32-Word src bytes c h in
        rw (e, p)
          (λ r. (
            Word-Agree src (l.s + 1) c w w1
                (subst (λ j. Word src c j 4) (sym ((==_iff _ _).0 r)) y),
            good.after_near l.s c q e,
          ))
  ]

  try_next-IsHit :
      (cv next_s c : ℕ) (t short : Table)
      → Word src l.s cv 8
      → l.s < next_s
      → next_s + 8 ≤ length src
      → c < l.s
      → l.s < c + (65536 + 2 ^ 21)
      → Agree src l.s c 4
      → ((h : ℕ) → t h < l.s + 1)
      → ((h : ℕ) → short h < l.s + 1)
      → Ends
          (IsHit src room l.s)
          (try_next v src (record { loop = record l { table = t }; short = short }) cv next_s c)
  unfolding try_next
  try_next-IsHit cv next_s c t short w later inside behind near same below below' =
      let hash = v.hash_long (cv / 2 ^ 8) in
      let c' = t hash in
      let long = put t hash (v.entry (l.s + 1)) in
      let b' = below hash in
      let entries : (h : ℕ) → long h < l.s + 2 = λ h.
        put-lt t hash (v.entry (l.s + 1)) (l.s + 2) h (λ k. omega (arith, below k))
          (omega (arith, good.entry_le (l.s + 1))) in
      let w1 = Word-low src (l.s + 1) (cv / 2 ^ 8) 3 w.holds.1 in
      Ends-bind (λ p. p ≡ true → Agree src (l.s + 1) c' 4 × (l.s + 1 < c' + (65536 + 2 ^ 21)))
        (IsHit src room l.s) _ _
        (is_next-Agree c' (u32 (cv / 2 ^ 8)) (omega arith) (omega arith) w1)
        (λ hit f. elim (Bool-cases hit) [
          | inl e ↦ rw e (
              hit-IsFound (l.s + 1) c' next_s long short (omega arith) (omega arith) later
                (omega arith) (omega arith) (f e).1 (λ h. omega (arith, entries h))
                (λ h. omega (arith, entries h)) (λ h. omega (arith, below' h)) (f e).0)
          | inr e ↦ rw e (
              hit-IsFound l.s c next_s long short (omega arith) (omega arith) later (omega arith)
                behind near (λ h. omega (arith, entries h)) (λ h. omega (arith, entries h)) below'
                same)
        ])

  -- Both tables with the position `l.s` in them.
  pub long-lt : (cv h : ℕ) → put l.table (v.hash_long cv) (v.entry l.s) h < l.s + 1
  long-lt cv h =
      put-lt l.table (v.hash_long cv) (v.entry l.s) (l.s + 1) h
        (λ k. omega (arith, ready.ready.below k)) (omega (arith, good.entry_le l.s))

  pub short-lt : (cv h : ℕ) → put b.short (v.hash_short cv) (v.entry l.s) h < l.s + 1
  short-lt cv h =
      put-lt b.short (v.hash_short cv) (v.entry l.s) (l.s + 1) h
        (λ k. omega (arith, ready.short_below k)) (omega (arith, good.entry_le l.s))

  module _ (cv next_s : ℕ) (w : Word src l.s cv 8) (later : l.s < next_s)
      (inside : next_s + 8 ≤ length src) where
    pub direct-IsFound :
        (c : ℕ)
        → c < l.s
        → l.s < c + (65536 + 2 ^ 21)
        → Agree src l.s c 4
        → IsFound src room l.s c next_s (indexed v b cv)
    direct-IsFound c q n same =
        hit-IsFound l.s c next_s _ _ (omega arith) (omega arith) later (omega arith) q n
          (λ h. omega (arith, long-lt cv h)) (λ h. omega (arith, long-lt cv h)) (short-lt cv) same

    -- The tests behind that of the repeat, for the words `x` at `cl` and `y` at `cs`.
    pub candidates-IsHit :
        (cl cs x y : ℕ)
        → cl < l.s
        → cs < l.s
        → Word src cl x 8
        → Word src cs y 8
        → Ends (IsHit src room l.s) (
            if v.is_from l.s cl && u32 cv == u32 x
            then next (found cl next_s (indexed v b cv))
            else if v.is_from l.s cs && u32 cv == u32 y
            then try_next v src (indexed v b cv) cv next_s cs
            else next (
                settled (
                  again (record (indexed v b cv) {
                    loop = record (indexed v b cv).loop { s = next_s };
                  }))))
    candidates-IsHit cl cs x y bl bs wx wy =
        elim (Bool-cases (v.is_from l.s cl && u32 cv == u32 x)) [
          | inl k ↦
              let (from, same) = both (v.is_from l.s cl) (u32 cv == u32 x) k in
              rw k (
                direct-IsFound cl bl (good.from_near l.s cl (omega arith) from)
                  (low-Agree src l.s cl cv x w wx ((==_iff _ _).0 same)))
          | inr k ↦ rw k (elim (Bool-cases (v.is_from l.s cs && u32 cv == u32 y)) [
            | inl m ↦
                let (from, same) = both (v.is_from l.s cs) (u32 cv == u32 y) m in
                rw m (
                  try_next-IsHit cv next_s cs _ _ w later inside bs
                    (good.from_near l.s cs (omega arith) from)
                    (low-Agree src l.s cs cv y w wy ((==_iff _ _).0 same)) (long-lt cv)
                    (short-lt cv))
            | inr m ↦ rw m (next-IsReady next_s _ _ later inside (long-lt cv) (short-lt cv), later)
          ])
        ]
