-- ===== src/Reference/RoundTrip/Loop.antt =====
-- The outer loop of encodeBlock: what it emits rebuilds the source up to `next_emit`.
use minlz.Prelude.{ℕ, zero, suc, ◌+◌, ◌-◌, ◌^◌, ◌≤◌, ◌<◌, ◌≡◌, sym, ◌∙◌, ap, arith}
use minlz.Prelude.{List, length, length-append, length-drop, Option, none, some, All, take, drop}
use minlz.Prelude.{ltb, Bool-cases, inl, inr, ltb→le, ltb→lt, take-length}
use minlz.Bytes.{IsByte}
use minlz.Reference.Reader.{Result}
use minlz.Reference.Decoder.{max_block_size}
use minlz.Reference.Emit.{emit_literals}
use minlz.Reference.Encoder.{Table, Search, remainder, found}
use minlz.Reference.Encoder.{
  Loop, emit_found, emit_remainder, after_emitted, after_search, encode_loop,
}
use minlz.Reference.Returns.{Returns, Returns-bind}
use minlz.Reference.RoundTrip.Source.{IsMatch}
use minlz.Reference.RoundTrip.Emits.{Emits, Emits-trans, emit_literals-Emits}
use minlz.Reference.RoundTrip.Search.{IsHit, search_match-IsHit}
use minlz.Reference.RoundTrip.Extend.{Extends, extend-Extends, index_match-below}
use minlz.Reference.RoundTrip.Found.{Emits-length, Emitted, emit_found-Emitted}
use mathlib.Core.Path.{subst}

-- A hit and its extension are a match.
hit-IsMatch :
    (src : List ℕ) (s b c t : ℕ) (table : Table)
    → IsHit src s (found b c table)
    → Extends src (length src - (b + 4)) (b + 4) (c + 4) t
    → IsMatch src b (b - c) (t - b)
hit-IsMatch src s b c t table (p, q, r, d, four, below) x = record {
  behind = omega arith;
  inside = omega arith;
  within = omega (arith, x.forward, x.bounded);
  same = λ i h. elim (Bool-cases (ltb i 4)) [
    | inl a ↦ let e : b + i - (b - c) ≡ c + i = omega arith in rw e (four i (ltb→lt i 4 a))
    | inr a ↦
        let i4 : 4 ≤ i = ltb→le i 4 a in
        let e : b + i - (b - c) ≡ c + 4 + (i - 4) = omega arith in
        let f : b + i ≡ b + 4 + (i - 4) = omega arith in
        let g : b + 4 + (i - 4) < t = omega (arith, x.forward) in rw (e, f) (x.same (i - 4) g)
  ];
}

module _ (src dst0 : List ℕ) (fits : length src ≤ max_block_size) where
  abbrev dst_limit : ℕ
  dst_limit = length src + length dst0 - 11

  -- The variables of the loop: the output so far rebuilds `src[:next_emit]`.
  pub record IsReady (l : Loop) : Type 0 where
    pub most : ℕ
    pub emits : Emits src 0 1 l.next_emit l.repeat dst0 l.dst most
    pub small : length l.dst ≤ dst_limit
    pub has_repeat : 1 ≤ l.repeat
    pub ordered : l.next_emit ≤ l.s
    pub started : 1 ≤ l.s
    pub bounded : l.next_emit ≤ length src
    pub below : (h : ℕ) → l.table h < l.s

  -- A result that rebuilds the whole source, and is no longer than the source itself.
  abbrev pub IsCoded : Option (List ℕ) → Type 0
  IsCoded none = Unit {0}
  IsCoded (some d) =
      (most : ℕ) × (o : ℕ) × Emits src 0 1 (length src) o dst0 d most
      × (length d ≤ length src + length dst0)

  remainder-IsCoded :
      (n o most : ℕ) (dst : List ℕ)
      → 11 ≤ length src
      → Emits src 0 1 n o dst0 dst most
      → 1 ≤ o
      → n ≤ length src
      → length dst ≤ dst_limit + 11
      → IsCoded (emit_remainder dst_limit src n dst)
  unfolding emit_remainder
  remainder-IsCoded n o most dst big e p q h = elim (Bool-cases (ltb n (length src))) [
    | inr a ↦
        let full : n ≡ length src = omega (arith, ltb→le n (length src) a) in
        rw a (most, o, subst (λ j. Emits src 0 1 j o dst0 dst most) full e, omega arith)
    | inl a ↦ rw a (elim (Bool-cases (ltb dst_limit (length dst + length src - n))) [
      | inl b ↦ rw b tt
      | inr b ↦
          let n_lt : n < length src = ltb→lt n (length src) a in
          let room : length dst + length src - n ≤ dst_limit = ltb→le _ _ b in
          let grown : length dst ≡ length dst0 + length e.bytes =
            ap (λ (xs : List ℕ). length xs) e.split ∙ length-append dst0 e.bytes in
          let last =
            emit_literals-Emits src fits n k o dst p (omega arith) (omega arith) (omega arith) in
          let last' : Emits src n o (length src) o dst (emit_literals dst (drop n src)) (4 + k) =
            subst (λ (xs : List ℕ). Emits src n o (length src) o dst (emit_literals dst xs) (4 + k))
              rest
              (subst (λ j. Emits src n o j o dst (emit_literals dst (take k (drop n src))) (4 + k))
                (omega arith) last) in
          rw b (
            most + (4 + k),
            o,
            Emits-trans src 0 1 n o (length src) o dst0 dst (emit_literals dst (drop n src)) most
                (4 + k) e last',
            omega (
              arith,
              Emits-length src n o (length src) o dst (emit_literals dst (drop n src)) (4 + k)
                  last',
            ),
          )
    ])
  ]
    where
      k : ℕ
      k = length src - n

      rest : take k (drop n src) ≡ drop n src
      rest = take-length k (drop n src) (omega (arith, length-drop n src))

  -- `emit_found` at a position that is not written as a sum.
  emit_found_at :
      (l : Loop) (b offset s : ℕ)
      → IsReady l
      → l.next_emit ≤ b
      → offset < 65536 + 2 ^ 21
      → b + 4 ≤ s
      → IsMatch src b offset (s - b)
      → Returns
          (Emitted src fits dst_limit l.next_emit l.repeat s offset l.dst)
          (emit_found dst_limit src l b offset s)
  emit_found_at l b offset s ready p q r m =
      let e : l.next_emit + (b - l.next_emit) ≡ b = omega arith in
      subst
        (λ j.
          Returns (Emitted src fits dst_limit l.next_emit l.repeat s offset l.dst)
            (emit_found dst_limit src l j offset s))
        e
        (emit_found-Emitted src fits dst_limit l (b - l.next_emit) offset s ready.has_repeat q
          (omega arith) (subst (λ j. IsMatch src j offset (s - j)) (sym e) m) ready.small)

  -- The state of the next round, after a match up to `s`.
  next-IsReady :
      (l : Loop) (b offset s most : ℕ) (dst : List ℕ) (table : Table)
      → IsReady l
      → 1 ≤ offset
      → b + 4 ≤ s
      → s + 4 ≤ length src
      → length dst ≤ dst_limit
      → Emits src l.next_emit l.repeat s offset l.dst dst most
      → ((h : ℕ) → table h < s)
      → IsReady (record { dst = dst; table = table; s = s; next_emit = s; repeat = offset })
  next-IsReady l b offset s most dst table ready p q r t e below = record {
    most = ready.most + most;
    emits =
        Emits-trans src 0 1 l.next_emit l.repeat s offset dst0 l.dst dst ready.most most ready.emits
          e;
    small = t;
    has_repeat = p;
    ordered = omega arith;
    started = omega arith;
    bounded = omega arith;
    below = below;
  }

  -- What a round may assume of the next one, which stands further on in the source.
  abbrev Goes : (s : ℕ) → (Loop → Result (Option (List ℕ))) → Type 0
  Goes s again = (l : Loop) → IsReady l → s ≤ l.s → l.s + 4 ≤ length src → Returns IsCoded (again l)

  after_emitted-IsCoded :
      (again : Loop → Result (Option (List ℕ))) (l : Loop) (b offset s : ℕ) (table : Table)
      (o : Option (List ℕ))
      → 11 ≤ length src
      → Goes s again
      → IsReady l
      → 1 ≤ offset
      → b + 4 ≤ s
      → s ≤ length src
      → ((h : ℕ) → table h ≤ b)
      → Emitted src fits dst_limit l.next_emit l.repeat s offset l.dst o
      → Returns IsCoded (after_emitted again dst_limit src b offset s table o)
  unfolding after_emitted
  after_emitted-IsCoded again l b offset s table none big go ready p q r below e = tt
  after_emitted-IsCoded again l b offset s table (some dst) big go ready p q r below
        (most, e, bound) =
      elim (Bool-cases (ltb (length src) (s + 4))) [
        | inl a ↦ rw a (
            remainder-IsCoded s offset (ready.most + most) dst big
              (Emits-trans src 0 1 l.next_emit l.repeat s offset dst0 l.dst dst ready.most most
                ready.emits e)
              p r bound)
        | inr a ↦ rw a (elim (Bool-cases (ltb dst_limit (length dst))) [
          | inl c ↦ rw c tt
          | inr c ↦ rw c (
              Returns-bind (λ (t : Table). (h : ℕ) → t h < b + 1 + (s - (b + 1))) IsCoded _ _
                (index_match-below (s - (b + 1)) src (b + 1) table (omega (arith, ltb→le _ _ a))
                  (λ h. omega (arith, below h)))
                (λ t x.
                  go _
                    (next-IsReady l b offset s most dst t ready p q (ltb→le _ _ a) (ltb→le _ _ c) e
                      (λ h. omega (arith, x h)))
                    (omega arith) (ltb→le _ _ a)))
        ])
      ]

  after_search-IsCoded :
      (again : Loop → Result (Option (List ℕ))) (l : Loop) (hit : Search)
      → 11 ≤ length src
      → Goes (l.s + 4) again
      → IsReady l
      → IsHit src l.s hit
      → Returns IsCoded (after_search again dst_limit src l hit)
  unfolding after_search
  after_search-IsCoded again l remainder big go ready h =
      remainder-IsCoded l.next_emit l.repeat ready.most l.dst big ready.emits ready.has_repeat
        ready.bounded (omega (arith, ready.small))
  after_search-IsCoded again l (found b c table) big go ready (p, q, r, d, four, below) =
      Returns-bind (Extends src (length src - (b + 4)) (b + 4) (c + 4)) IsCoded _ _
        (extend-Extends (length src - (b + 4)) src (b + 4) (c + 4) (omega arith) (omega arith))
        λ s x.
          let m = hit-IsMatch src l.s b c s table (p, q, r, d, four, below) x in
          Returns-bind (Emitted src fits dst_limit l.next_emit l.repeat s (b - c) l.dst) IsCoded _ _
            (emit_found_at l b (b - c) s ready (omega (arith, ready.ordered)) (omega arith)
              x.forward m)
            (λ o e.
              after_emitted-IsCoded again l b (b - c) s table o big
                (λ l' ready' after room. go l' ready' (omega (arith, x.forward)) room) ready
                (omega arith) x.forward (omega (arith, x.bounded)) below e)

  -- With a round for each byte of the source, the loop ends, and what it returns rebuilds the
  -- source and is no longer than it.
  pub encode_loop-IsCoded :
      (fuel : ℕ) (l : Loop)
      → All IsByte src
      → 11 ≤ length src
      → IsReady l
      → 1 ≤ fuel
      → length src < fuel + l.s
      → Returns IsCoded (encode_loop fuel dst_limit src l)
  unfolding encode_loop
  encode_loop-IsCoded zero l bytes big ready f g = absurd (omega arith)
  encode_loop-IsCoded (suc fuel) l bytes big ready f g =
      Returns-bind (IsHit src l.s) IsCoded _ _
        (search_match-IsHit (length src) src l.s l.table bytes (omega arith) (omega arith)
          ready.below)
        λ hit h.
          after_search-IsCoded (encode_loop fuel dst_limit src) l hit big
            (λ l' ready' after room.
              encode_loop-IsCoded fuel l' bytes big ready' (omega arith) (omega arith))
            ready h
