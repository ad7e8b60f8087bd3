-- ===== src/Reference/RoundTrip/Found.antt =====
-- What encodeBlock emits for one match, with the literals that stand before it.
use minlz.Prelude.{ℕ, ◌+◌, ◌-◌, ◌^◌, ◌≤◌, ◌<◌, ◌≡◌, refl, sym, arith}
use minlz.Prelude.{
  List, [], append-nil, length, length-append, Option, none, some, Bool, true, false,
}
use minlz.Prelude.{
  take, drop, ltb, leb, ◌==◌, if◌then◌else◌, Bool-cases, inl, inr, ==_iff, leb→le, ltb→le,
}
use minlz.Reference.Reader.{Result, ok, ◌>>=◌}
use minlz.Reference.Decoder.{max_block_size}
use minlz.Reference.Emit.{emit_literals, emit_repeat}
use minlz.Reference.Encoder.{can_fuse, emit_pending, emit_match, Loop, emit_found}
use minlz.Reference.Returns.{Returns, Returns-bind}
use minlz.Reference.RoundTrip.Source.{IsMatch, length-slice}
use minlz.Reference.RoundTrip.Emits.{
  Emits, Emits-trans, Emits-as, emit_literals-Emits, emit_repeat-Emits,
}
use minlz.Reference.RoundTrip.Copies.{
  emit_copy1-Emits, emit_copy2-Emits, emit_copy3-Emits, emit_copy_lits2-Emits,
}
use mathlib.Core.Path.{subst}

pub Emits-nil : (src : List ℕ) (n last : ℕ) (dst : List ℕ) → Emits src n last n last dst dst 0
Emits-nil src n last dst = record {
  bytes = [];
  split = sym (append-nil dst);
  replays = λ rest. refl;
  short = omega arith;
  octets = λ b. tt;
}

pub Emits-length :
    (src : List ℕ) (n last n' o : ℕ) (dst dst' : List ℕ) (most : ℕ)
    → Emits src n last n' o dst dst' most
    → length dst' ≤ length dst + most
Emits-length src n last n' o dst dst' most e = rw (e.split, length-append) (omega (arith, e.short))

module _ (src : List ℕ) (fits : length src ≤ max_block_size) where
  -- The copy of a match, when no literals were fused with it.
  emit_match-Emits :
      (n last offset len : ℕ) (dst : List ℕ)
      → 1 ≤ last
      → offset < 65536 + 2 ^ 21
      → 4 ≤ len
      → IsMatch src n offset len
      → Returns (λ d. Emits src n last (n + len) offset dst d 7) (emit_match dst last offset len)
  unfolding emit_match
  emit_match-Emits n last offset len dst p q r m = elim (Bool-cases (offset == last)) [
    | inl a ↦ rw a (repeated ((==_iff offset last).0 a))
    | inr a ↦ rw a (elim (Bool-cases (leb offset 1024)) [
      | inl b ↦ rw b (emit_copy1-Emits src fits n last offset len dst p (leb→le _ _ b) r m)
      | inr b ↦ rw b (elim (Bool-cases (leb offset (65535 + 64))) [
        | inl c ↦
            let (d, e, x) =
              emit_copy2-Emits src fits n last offset len dst p (ground arith) (ground arith) r m in
            rw (c, e) x
        | inr c ↦
            let z : n + 0 ≡ n = omega arith in
            let (d, e, x) =
              emit_copy3-Emits src fits n 0 last offset len dst p (omega arith) (ground arith) q r
                (subst (λ j. IsMatch src j offset len) (sym z) m) in
            rw (c, e) (subst (λ j. Emits src n last (j + len) offset dst d 7) z x)
      ])
    ])
  ]
    where
      repeated : offset ≡ last → Emits src n last (n + len) offset dst (emit_repeat dst len) 7
      repeated e =
          subst (λ j. Emits src n j (n + len) offset dst (emit_repeat dst len) 7) e
            (Emits-as 4 7 (emit_repeat-Emits src fits n offset len dst (omega arith) m) refl
              (omega arith))

  -- The outcome of the literals: a bail out, a fused copy, or literals alone within the limit.
  abbrev Pending :
      (limit n last base offset len : ℕ) (dst : List ℕ) → Option (List ℕ × Bool) → Type 0
  Pending limit n last base offset len dst none = Unit {0}
  Pending limit n last base offset len dst (some (d, true)) =
      Emits src n last (base + len) offset dst d 11
  Pending limit n last base offset len dst (some (d, false)) =
      (most : ℕ) × Emits src n last base last dst d most × (length d ≤ limit + 4)

  emit_pending-Pending :
      (limit n k last offset len : ℕ) (dst : List ℕ)
      → 1 ≤ last
      → offset < 65536 + 2 ^ 21
      → 4 ≤ len
      → IsMatch src (n + k) offset len
      → length dst ≤ limit
      → Returns
          (Pending limit n last (n + k) offset len dst)
          (emit_pending limit dst (take k (drop n src)) offset len)
  unfolding emit_pending
  emit_pending-Pending limit n k last offset len dst p q r m h = elim (Bool-cases (k == 0)) [
    | inl a ↦
        let z : n ≡ n + k = ground arith in
        rw (size, a)
          (
            0,
            subst (λ j. Emits src n last j last dst dst 0) z (Emits-nil src n last dst),
            omega arith,
          )
    | inr a ↦
        rw (size, a)
          (elim (Bool-cases (can_fuse k offset)) [
            | inl b ↦ rw b (elim (Bool-cases (leb offset (65535 + 64))) [
              | inl c ↦ rw c (
                  emit_copy_lits2-Emits src fits n k last offset len dst p (ground arith)
                    (ground arith) (ground arith) (ground arith) r m)
              | inr c ↦
                  let (d, e, x) =
                    emit_copy3-Emits src fits n k last offset len dst p (ground arith)
                      (ground arith) q r m in
                  rw (c, e) (Emits-as (7 + k) 11 x refl (ground arith))
            ])
            | inr b ↦ rw b (elim (Bool-cases (ltb limit (length dst + k))) [
              | inl c ↦ rw c tt
              | inr c ↦
                  let e =
                    emit_literals-Emits src fits n k last dst p (ground arith)
                      (omega (arith, m.within)) (omega (arith, m.within)) in
                  rw c (
                    4 + k,
                    e,
                    omega (
                      arith,
                      ltb→le _ _ c,
                      Emits-length src n last (n + k) last dst
                          (emit_literals dst (take k (drop n src))) (4 + k) e,
                    ),
                  )
            ])
          ])
  ]
    where
      size : length (take k (drop n src)) ≡ k
      size = length-slice src fits n k (omega (arith, m.within))

  -- The whole operation: a bail out, or at most 11 bytes beyond the limit.
  abbrev pub Emitted : (limit n last s offset : ℕ) (dst : List ℕ) → Option (List ℕ) → Type 0
  Emitted limit n last s offset dst none = Unit {0}
  Emitted limit n last s offset dst (some d) =
      (most : ℕ) × Emits src n last s offset dst d most × (length d ≤ limit + 11)

  pub emit_found-Emitted :
      (limit : ℕ) (l : Loop) (k offset s : ℕ)
      → 1 ≤ l.repeat
      → offset < 65536 + 2 ^ 21
      → l.next_emit + k + 4 ≤ s
      → IsMatch src (l.next_emit + k) offset (s - (l.next_emit + k))
      → length l.dst ≤ limit
      → Returns
          (Emitted limit l.next_emit l.repeat s offset l.dst)
          (emit_found limit src l (l.next_emit + k) offset s)
  unfolding emit_found
  emit_found-Emitted limit l k offset s p q r m h = rw back (
      Returns-bind (Pending limit n last (n + k) offset len l.dst) Goal _ _
        (emit_pending-Pending limit n k last offset len l.dst p q (omega arith) m h) settle)
    where
      n : ℕ
      n = l.next_emit

      last : ℕ
      last = l.repeat

      len : ℕ
      len = s - (n + k)

      back : n + k - n ≡ k
      back = omega arith

      whole : n + k + len ≡ s
      whole = omega arith

      Goal : Option (List ℕ) → Type 0
      Goal = Emitted limit n last s offset l.dst

      after : List ℕ × Bool → Result (Option (List ℕ))
      after (d, fused) =
          if fused
          then ok (some d)
          else (emit_match d last offset len >>= λ (dst' : List ℕ). ok (some dst'))

      settle :
          (o : Option (List ℕ × Bool))
          → Pending limit n last (n + k) offset len l.dst o
          → Returns Goal (elim o [ none ↦ ok none | some x ↦ after x ])
      settle none e = tt
      settle (some (d, true)) e = (
        11,
        subst (λ j. Emits src n last j offset l.dst d 11) whole e,
        omega (arith, Emits-length src n last (n + k + len) offset l.dst d 11 e),
      )
      settle (some (d, false)) (most, e, b) =
          Returns-bind (λ d'. Emits src (n + k) last (n + k + len) offset d d' 7) Goal _ _
            (emit_match-Emits (n + k) last offset len d p q (omega arith) m)
            λ d' x. (
              most + 7,
              subst (λ j. Emits src n last j offset l.dst d' (most + 7)) whole
                  (Emits-trans src n last (n + k) last (n + k + len) offset l.dst d d' most 7 e x),
              omega (arith, b, Emits-length src (n + k) last (n + k + len) offset d d' 7 x),
            )
