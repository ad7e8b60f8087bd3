-- ===== src/Level2/Below.antt =====
-- The positions in the tables stay below a bound.
use minlz.Prelude.{ℕ, zero, suc, ◌+◌, ◌-◌, ◌/◌, ◌^◌, ◌≤◌, ◌<◌, arith, List, length, All}
use minlz.Prelude.{ltb, Bool-cases, inl, inr, ltb→lt}
use minlz.Bytes.{IsByte}
use minlz.Reference.Encoder.{Table, put}
use minlz.Level1.Ends.{Ends, Ends-bind}
use minlz.Level1.Loads.{load64-Word}
use minlz.Level1.SearchRound.{put-lt}
use minlz.Level2.Tables.{Variant, Tables, index_two, index_between, index_sparse, index_match}

pub record Below (n : ℕ) (t : Tables) : Type 0 where
  pub long : (h : ℕ) → t.long h < n
  pub short : (h : ℕ) → t.short h < n

put_two-lt :
    (v : Variant) (table : Table) (i j n a b : ℕ)
    → ((x : ℕ) → v.entry x ≤ x)
    → i < n
    → j < n
    → ((h : ℕ) → table h < n)
    → (h : ℕ) → put (put table a (v.entry i)) b (v.entry j) h < n
put_two-lt v table i j n a b entry p q below h =
    put-lt (put table a (v.entry i)) b (v.entry j) n h
      (λ k. put-lt table a (v.entry i) n k below (omega (arith, entry i))) (omega (arith, entry j))

module _ (src : List ℕ) (bytes : All IsByte src) (v : Variant)
    (entry : (x : ℕ) → v.entry x ≤ x) where
  index_two-Below :
      (i j n : ℕ) (t : Tables)
      → i + 8 ≤ length src
      → j + 8 ≤ length src
      → i + 1 < n
      → j + 1 < n
      → Below n t
      → Ends (Below n) (index_two v src i j t)
  unfolding index_two
  index_two-Below i j n t p q r l below =
      let (x, e, _) = load64-Word src bytes i p in
      let (y, f, _) = load64-Word src bytes j q in
      rw (e, f)
        (record {
          long =
              put_two-lt v t.long i j n (v.hash_long x) (v.hash_long y) entry (omega arith)
                (omega arith) below.long;
          short =
              put_two-lt v t.short (i + 1) (j + 1) n (v.hash_short (x / 2 ^ 8))
                (v.hash_short (y / 2 ^ 8)) entry r l below.short;
        })

  pub index_between-Below :
      (fuel i j n : ℕ) (t : Tables)
      → j + 8 ≤ length src
      → j + 1 < n
      → j < fuel + i
      → 1 ≤ fuel
      → Below n t
      → Ends (Below n) (index_between fuel v src i j t)
  unfolding index_between
  index_between-Below zero i j n t p q f g below = absurd (omega arith)
  index_between-Below (suc fuel) i j n t p q f g below = elim (Bool-cases (ltb i j)) [
    | inr e ↦ rw (e, index_between) below
    | inl e ↦
        let l = ltb→lt i j e in
        rw (e, index_between)
          (Ends-bind (Below n) (Below n) _ _
            (index_two-Below i j n t (omega arith) p (omega arith) q below)
            (λ t' b.
              index_between-Below fuel (i + 2) (j - 2) n t' (omega arith) (omega arith)
                (omega arith) (omega arith) b))
  ]

  index_sparse-Below :
      (fuel i k j n : ℕ) (t : Tables)
      → i ≤ k
      → j + 8 ≤ length src
      → j < n
      → j < fuel + k
      → 1 ≤ fuel
      → Below n t
      → Ends (Below n) (index_sparse fuel v src i k j t)
  unfolding index_sparse
  index_sparse-Below zero i k j n t o p q f g below = absurd (omega arith)
  index_sparse-Below (suc fuel) i k j n t o p q f g below = elim (Bool-cases (ltb k j)) [
    | inr e ↦ rw (e, index_sparse) below
    | inl e ↦
        let l = ltb→lt k j e in
        let (x, r, _) = load64-Word src bytes i (omega arith) in
        let (y, m, _) = load64-Word src bytes k (omega arith) in
        rw (e, index_sparse, r, m)
          (index_sparse-Below fuel (i + 2) (k + 2) j n _ (omega arith) p q (omega arith)
            (omega arith)
            (record {
              long =
                  put_two-lt v t.long i k n (v.hash_long x) (v.hash_long y) entry (omega arith)
                    (omega arith) below.long;
              short = below.short;
            }))
  ]

  pub index_match-Below :
      (base s : ℕ) (t : Tables)
      → base + 4 ≤ s
      → s + 8 ≤ length src
      → Below s t
      → Ends (Below s) (index_match v src base s t)
  unfolding index_match
  index_match-Below base s t p q below =
      Ends-bind (Below s) (Below s) _ _
        (index_two-Below (base + 1) (s - 2) s t (omega arith) (omega arith) (omega arith)
          (omega arith) below)
        (λ t' b.
          index_sparse-Below (length src) (base + 2) ((base + 2 + (s - 3) + 1) / 2) (s - 3) s t'
            (omega arith) (omega arith) (omega arith) (omega arith) (omega arith) b)
