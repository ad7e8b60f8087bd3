-- ===== src/Index/Reduce.antt =====
-- reduce of index.go ends, and leaves a valid index below the limit.
use minlz.Prelude.{
  ℕ, zero, suc, ◌+◌, ◌*◌, ◌/◌, ◌≤◌, ◌<◌, ◌≡◌, refl, arith, List, [], ◌∷◌, All, some,
}
use minlz.Prelude.{length, ltb, ◌&&◌, Bool-cases, inl, inr, false}
use mathlib.Core.Path.{subst}
use native.Mathlib.Nat.{div-eq_of_lt}
use minlz.Prelude.Slices.{All-map}
use minlz.Index.State.{OffsetPair, Index, max_index_entries, min_index_dist}
use minlz.Index.Spaced.{Apart, Spaced, IsValid}
use minlz.Index.Binary.{remove_n, every, reduce}

every-All :
    (P : OffsetPair → Type 0) (k : ℕ) (xs : List OffsetPair) (left : ℕ)
    → All P xs
    → All P (every k left xs)
unfolding every
every-All P k [] left h = tt
every-All P k (x ∷ xs) zero h = (h.0, every-All P k xs k h.1)
every-All P k (x ∷ xs) (suc left) h = every-All P k xs left h.1

-- Behind an entry that `a` separates from the ones that are left, with `left` more to go.
every-Apart :
    (est k a : ℕ) (b : OffsetPair) (xs : List OffsetPair) (left : ℕ)
    → Spaced est xs
    → All (Apart a b) xs
    → All (Apart (a + est * left) b) (every k left xs)
unfolding every
every-Apart est k a b [] left s h = tt
every-Apart est k a b (x ∷ xs) zero s h =
    let none_more : a ≡ a + est * zero = omega arith in
    subst (λ c. All (Apart c b) (x ∷ every k k xs)) none_more
      (h.0, every-All (Apart a b) k xs k h.1)
every-Apart est k a b (x ∷ xs) (suc left) s h =
    let one_more : a + est + est * left ≡ a + est * suc left = grind arith in
    rw one_more at (
      every-Apart est k (a + est) b xs left s.1 (
        All-map (Apart est x) (Apart (a + est) b) xs
          (λ y p. (omega (arith, p, h.0), omega (arith, p, h.0))) s.0))

every-Spaced :
    (est k : ℕ) (xs : List OffsetPair) (left : ℕ)
    → Spaced est xs
    → Spaced (est + est * k) (every k left xs)
unfolding every
every-Spaced est k [] left s = tt
every-Spaced est k (x ∷ xs) zero s =
    (every-Apart est k est x xs k s.1 s.0, every-Spaced est k xs k s.1)
every-Spaced est k (x ∷ xs) (suc left) s = every-Spaced est k xs left s.1

-- With one entry or more removed behind each, half of them go.
length-every :
    (k : ℕ) (xs : List OffsetPair)
    → (2 * length (every (suc k) zero xs) ≤ length xs + 1)
      × ((left : ℕ) → 2 * length (every (suc k) (suc left) xs) ≤ length xs)
unfolding every
length-every k [] = (omega arith, λ left. omega arith)
length-every k (x ∷ xs) =
    let ih = length-every k xs in
    let behind : 2 * length (every (suc k) (suc k) xs) ≤ length xs = ih.1 k in
    (omega (arith, behind), later ih)
  where
    later :
        (2 * length (every (suc k) zero xs) ≤ length xs + 1)
          × ((left : ℕ) → 2 * length (every (suc k) (suc left) xs) ≤ length xs)
        → (left : ℕ) → 2 * length (every (suc k) left xs) ≤ suc (length xs)
    later ih zero = omega (arith, ih.0)
    later ih (suc left) = omega (arith, ih.1 left)

length-every_positive :
    (k : ℕ) (xs : List OffsetPair) → 1 ≤ k → 2 * length (every k zero xs) ≤ length xs + 1
length-every_positive zero xs h = absurd (omega arith)
length-every_positive (suc k) xs h = (length-every k xs).0

remove_n-returns :
    (fuel est entries n : ℕ)
    → entries ≤ n + fuel
    → (k : ℕ) × (remove_n fuel est entries n ≡ some k) × (n ≤ k)
unfolding remove_n
remove_n-returns zero est entries n h =
    let one : entries / (n + 1) ≡ zero = div-eq_of_lt (omega arith) in
    let last : (ltb (est * (n + 1)) min_index_dist && ltb 1000 (entries / (n + 1))) ≡ false =
      rw one (ground arith) in
    (n, rw last refl, omega arith)
remove_n-returns (suc fuel) est entries n h =
    elim (Bool-cases (ltb (est * (n + 1)) min_index_dist && ltb 1000 (entries / (n + 1)))) [
      | inr a ↦ (n, rw a refl, omega arith)
      | inl a ↦
          let (k, e, p) = remove_n-returns fuel est entries (n + 1) (omega arith) in
          (k, rw a e, omega (arith, p))
    ]

-- From a valid index, reduce ends and leaves a valid index with fewer than 65536 entries.
pub reduce-IsValid :
    (i : Index)
    → IsValid i
    → (j : Index) × (reduce i ≡ some j) × IsValid j × (length j.offsets < max_index_entries)
unfolding reduce
reduce-IsValid i v = elim (Bool-cases (ltb (length i.offsets) max_index_entries)) [
  | inl a ↦ (i, rw (reduce, a) refl, v, ground arith)
  | inr a ↦
      let n = length i.offsets in
      let est = i.est_block_uncomp in
      let (k, e, p) = remove_n-returns n est n ((n + 1) / max_index_entries) (omega arith) in
      let full : max_index_entries ≤ n = ground arith in
      let some_go : 1 ≤ k = omega (arith, p, full) in
      let few = length-every_positive k i.offsets some_go in
      let j : Index = record i {
        offsets = every k zero i.offsets;
        est_block_uncomp = est + est * k;
      } in
      (
        j,
        rw (reduce, a, e) refl,
        record {
          positive = omega (arith, v.positive);
          spaced = every-Spaced est k i.offsets zero v.spaced;
          few = omega (arith, few, v.few);
        },
        omega (arith, few, v.few),
      )
]
