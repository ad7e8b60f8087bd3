-- ===== src/Reference/RoundTrip/Source.antt =====
-- The decoder while it rebuilds a given source: its output is a prefix of that source.
use minlz.Prelude.{ℕ, zero, suc, ◌+◌, ◌-◌, ◌≤◌, ◌<◌, ◌≡◌, sym, ◌∙◌, ap, arith}
use minlz.Prelude.{List, ◌++◌, append-nil, length, some}
use minlz.Prelude.{get_elem?, take, drop, length-take, length-drop, take-take-drop}
use minlz.Prelude.{get_elem?-take, take_snoc, get_elem?-lt}
use minlz.Reference.Reader.{ok}
use minlz.Reference.Decoder.{
  put_literals, put_extra, put_copy, literals, copy, State, execute, copy_loop, max_block_size,
}
use minlz.Reference.Total.{IsValid}
use minlz.Reference.Codes.Literal.{Encodes}
use minlz.Reference.RoundTrip.Replay.{Decodes, Decodes-command, put_literals_lem, put_extra_lem}
use mathlib.Core.Path.{subst}
use minlz.Reference.RoundTrip.Replay.{put_copy_lem}

-- The first `n` bytes are out, and `offset` is the one to repeat.
abbrev pub At : (src : List ℕ) (n offset : ℕ) → State
At src n offset = record { out = take n src; offset = offset }

-- The `len` bytes at `base` repeat those `offset` before.
pub record IsMatch (src : List ℕ) (base offset len : ℕ) : Type 0 where
  pub behind : 1 ≤ offset
  pub inside : offset ≤ base
  pub within : base + len ≤ length src
  pub same : (i : ℕ) → i < len → get_elem? src (base + i) ≡ get_elem? src (base + i - offset)

pub IsMatch-front :
    (src : List ℕ) (base offset a b : ℕ)
    → IsMatch src base offset (a + b)
    → IsMatch src base offset a
IsMatch-front src base offset a b m = record {
  behind = m.behind;
  inside = m.inside;
  within = omega (arith, m.within);
  same = λ i h. m.same i (omega arith);
}

pub IsMatch-back :
    (src : List ℕ) (base offset a b : ℕ)
    → IsMatch src base offset (a + b)
    → IsMatch src (base + a) offset b
IsMatch-back src base offset a b m = record {
  behind = m.behind;
  inside = omega (arith, m.inside);
  within = omega (arith, m.within);
  same = λ i h.
      let e : base + (a + i) ≡ base + a + i = omega arith in rw e at (m.same (a + i) (omega arith));
}

pub length-take_le : (src : List ℕ) (n : ℕ) → n ≤ length src → length (take n src) ≡ n
length-take_le src n h = omega (arith, length-take n src)

-- The overlapping copy rebuilds the source.
pub copy_loop-match :
    (src : List ℕ) (len base offset : ℕ)
    → IsMatch src base offset len
    → copy_loop len (base - offset) (take base src) ≡ some (take (base + len) src)
unfolding copy_loop
copy_loop-match src zero base offset m = ap (λ k. some (take k src)) (omega arith)
copy_loop-match src (suc n) base offset m =
    let (b, e) = get_elem?-lt src base (omega (arith, m.within)) in
    let zero_end : base + 0 ≡ base = omega arith in
    let old : get_elem? src (base - offset) ≡ some b =
      sym (rw zero_end at (m.same 0 (omega arith))) ∙ e in
    let seen : get_elem? (take base src) (base - offset) ≡ some b =
      get_elem?-take (base - offset) base src (omega (arith, m.behind, m.inside)) ∙ old in
    let next : base - offset + 1 ≡ suc base - offset = omega (arith, m.inside) in
    let one : base + 1 ≡ suc base = omega arith in
    let split : suc n ≡ 1 + n = omega arith in
    let rest : IsMatch src (suc base) offset n =
      rw one at (IsMatch-back src base offset 1 n (rw split at m)) in
    rw (seen, copy_loop, take_snoc base src e, next)
      (copy_loop-match src n (suc base) offset rest ∙ ap (λ k. some (take k src)) (omega arith))

-- A source that a block can hold.
module _ (src : List ℕ) (fits : length src ≤ max_block_size) where
  At-IsValid : (n offset : ℕ) → 1 ≤ offset → n ≤ length src → IsValid (length src) (At src n offset)
  At-IsValid n offset p q = record { has_offset = p; fits = omega (arith, length-take_le src n q) }

  pub length-slice : (n k : ℕ) → n + k ≤ length src → length (take k (drop n src)) ≡ k
  length-slice n k h = omega (arith, length-take k (drop n src), length-drop n src)

  -- The next `k` bytes of the source, as literals.
  pub literals_Decodes :
      (n k offset : ℕ) (bs : List ℕ)
      → 1 ≤ offset
      → n + k ≤ length src
      → k < max_block_size
      → Encodes offset (literals k) bs
      → Decodes (length src) (At src n offset) (bs ++ take k (drop n src)) (At src (n + k) offset)
  literals_Decodes n k offset bs p q r e =
      Decodes-command (length src) (At src n offset) (At src (n + k) offset) (literals k) bs lits
        (At-IsValid n offset p (omega arith)) e run
    where
      lits : List ℕ
      lits = take k (drop n src)

      size : length lits ≡ k
      size = length-slice n k q

      run :
          (rest : List ℕ)
          → execute (length src) (literals k) (At src n offset) (lits ++ rest)
            ≡ ok (At src (n + k) offset, rest)
      run rest =
          unfold execute in
          subst
            (λ (j : ℕ).
              put_literals (length src) j (At src n offset) (lits ++ rest)
              ≡ ok (At src (n + k) offset, rest))
            size
            (put_literals_lem (length src) (At src n offset) lits rest (rw size r)
                (rw (size, length-take_le src n (omega arith)) q)
              ∙ ap (λ (o : List ℕ). ok (record { out = o; offset = offset }, rest))
                  (take-take-drop n k src))

  extra_lem :
      (n k last : ℕ) (rest : List ℕ)
      → n + k ≤ length src
      → k ≤ 4
      → put_extra (length src) k (At src n last) (take k (drop n src) ++ rest)
        ≡ ok (At src (n + k) last, rest)
  extra_lem n k last rest q r =
      subst
        (λ (j : ℕ).
          put_extra (length src) j (At src n last) (take k (drop n src) ++ rest)
          ≡ ok (At src (n + k) last, rest))
        (length-slice n k q)
        (put_extra_lem (length src) (At src n last) (take k (drop n src)) rest
            (rw (length-slice n k q) (omega arith))
            (rw (length-slice n k q, length-take_le src n (omega arith)) q)
          ∙ ap (λ (o : List ℕ). ok (record { out = o; offset = last }, rest))
              (take-take-drop n k src))

  -- A copy behind the next `k` bytes of the source.
  pub copy_Decodes :
      (n k last offset len : ℕ) (bs : List ℕ)
      → 1 ≤ last
      → k ≤ 4
      → IsMatch src (n + k) offset len
      → Encodes last (copy k offset len) bs
      → Decodes
          (length src)
          (At src n last)
          (bs ++ take k (drop n src))
          (At src (n + k + len) offset)
  copy_Decodes n k last offset len bs p q m e =
      Decodes-command (length src) (At src n last) (At src (n + k + len) offset) (copy k offset len)
        bs (take k (drop n src)) (At-IsValid n last p (omega (arith, m.within))) e run
    where
      full : length (take (n + k) src) ≡ n + k
      full = length-take_le src (n + k) (omega (arith, m.within))

      copied :
          put_copy (length src) offset len (At src (n + k) last) ≡ ok (At src (n + k + len) offset)
      copied =
          put_copy_lem (length src) offset len (At src (n + k) last) (take (n + k + len) src)
            (omega (arith, m.within)) (rw full m.within) (rw full m.inside)
            (rw full (copy_loop-match src len (n + k) offset m))

      run :
          (rest : List ℕ)
          → execute (length src) (copy k offset len) (At src n last) (take k (drop n src) ++ rest)
            ≡ ok (At src (n + k + len) offset, rest)
      run rest = unfold execute in rw (extra_lem n k last rest (omega (arith, m.within)) q, copied)

  -- A copy with nothing before it.
  pub plain_Decodes :
      (n last offset len : ℕ) (bs : List ℕ)
      → 1 ≤ last
      → IsMatch src n offset len
      → Encodes last (copy 0 offset len) bs
      → Decodes (length src) (At src n last) bs (At src (n + len) offset)
  plain_Decodes n last offset len bs p m e =
      let z : n + 0 ≡ n = omega arith in
      let d =
        copy_Decodes n 0 last offset len bs p (omega arith)
          (subst (λ j. IsMatch src j offset len) (sym z) m) e in
      rw (append-nil, z) at d
