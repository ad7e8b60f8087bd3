-- ===== src/Reference/RoundTrip/Extend.antt =====
-- The encoder's loops over a match: its extension, and the positions in it that are indexed.
use minlz.Prelude.{ℕ, zero, suc, ◌+◌, ◌≤◌, ◌<◌, ◌≡◌, sym, ◌∙◌, ap, arith}
use minlz.Prelude.{List, length, some, get_elem?, get_elem?-lt}
use minlz.Prelude.{◌==◌, Bool-cases, inl, inr, ==_iff}
use minlz.Reference.Encoder.{Table, put, hash4, extend, index_match}
use minlz.Reference.Returns.{Returns, Returns-weaken}
use minlz.Reference.RoundTrip.Search.{load32-Loaded, put-le}
use native.Mathlib.Nat.{add-zero}

-- The bytes from `s` up to the end that was found are those from `candidate` on.
pub record Extends (src : List ℕ) (left s candidate t : ℕ) : Type 0 where
  pub forward : s ≤ t
  pub bounded : t ≤ s + left
  pub same : (k : ℕ) → s + k < t → get_elem? src (s + k) ≡ get_elem? src (candidate + k)

Extends-more :
    (src : List ℕ) (left s candidate t : ℕ)
    → get_elem? src s ≡ get_elem? src candidate
    → Extends src left (s + 1) (candidate + 1) t
    → Extends src (suc left) s candidate t
Extends-more src left s candidate t e x = record {
  forward = omega (arith, x.forward);
  bounded = omega (arith, x.bounded);
  same = at;
}
  where
    at : (k : ℕ) → s + k < t → get_elem? src (s + k) ≡ get_elem? src (candidate + k)
    at zero h = rw (add-zero s, add-zero candidate) e
    at (suc k) h =
        let a : s + 1 + k ≡ s + suc k = omega arith in
        let b : candidate + 1 + k ≡ candidate + suc k = omega arith in
        rw (a, b) at (x.same k (omega arith))

pub extend-Extends :
    (left : ℕ) (src : List ℕ) (s candidate : ℕ)
    → s + left ≤ length src
    → candidate ≤ s
    → Returns (Extends src left s candidate) (extend left src s candidate)
unfolding extend
extend-Extends zero src s candidate h c = record {
  forward = omega arith;
  bounded = omega arith;
  same = λ k l. absurd (omega arith);
}
extend-Extends (suc left) src s candidate h c =
    let (a, p) = get_elem?-lt src s (omega arith) in
    let (b, q) = get_elem?-lt src candidate (omega arith) in
    rw (p, q)
      (elim (Bool-cases (a == b)) [
        | inl e ↦ rw e (
            Returns-weaken (Extends src left (s + 1) (candidate + 1))
              (Extends src (suc left) s candidate) _
              (extend-Extends left src (s + 1) (candidate + 1) (omega arith) (omega arith))
              (λ t x.
                Extends-more src left s candidate t (p ∙ ap some ((==_iff a b).0 e) ∙ sym q) x))
        | inr e ↦ rw e (record {
          forward = omega arith;
          bounded = omega arith;
          same = λ k l. absurd (omega arith);
        })
      ])

pub index_match-below :
    (left : ℕ) (src : List ℕ) (base : ℕ) (table : Table)
    → base + left + 3 ≤ length src
    → ((h : ℕ) → table h < base)
    → Returns (λ t. (h : ℕ) → t h < base + left) (index_match left src base table)
unfolding index_match
index_match-below zero src base table p below = λ h. omega (arith, below h)
index_match-below (suc left) src base table p below =
    let (cv, e, x) = load32-Loaded src base (omega arith) in
    rw e (
      Returns-weaken (λ (t : Table). (h : ℕ) → t h < base + 1 + left)
        (λ (t : Table). (h : ℕ) → t h < base + suc left) _
        (index_match-below left src (base + 1) (put table (hash4 cv) base) (omega arith)
          (λ h. omega (arith, put-le table (hash4 cv) base h below)))
        (λ t x' h. omega (arith, x' h)))
