-- ===== src/Index/Search.antt =====
-- The search of Find (index.go) by sort.Search ends at the same entry as its loop.
use minlz.Prelude.{ℕ, zero, suc, ◌-◌, ◌≤◌, ◌<◌, ◌≡◌, refl, arith, List, [], ◌∷◌, All}
use minlz.Prelude.{Bool, true, false, some, length, get_elem?, ltb, ◌==◌, ==_iff}
use minlz.Prelude.{Bool-cases, inl, inr, ltb→lt}
use minlz.Prelude.Slices.{All-map}
use mathlib.Core.Path.{subst}
use minlz.Index.State.{OffsetPair, scan, is_behind, find_sorted, found}
use minlz.Index.Spaced.{Spaced}

-- What sort.Search documents: on `n` values of which all behind a true one are true, the index of
-- the first that is true, or `n`.
pub record Searches (sort_search : ℕ → (ℕ → Bool) → ℕ) : Type 0 where
  pub within : (n : ℕ) (f : ℕ → Bool) → sort_search n f ≤ n
  pub before :
      (n : ℕ) (f : ℕ → Bool)
      → ((i j : ℕ) → i ≤ j → j < n → f i ≡ true → f j ≡ true)
      → (i : ℕ) → i < sort_search n f
      → f i ≡ false
  pub at :
      (n : ℕ) (f : ℕ → Bool)
      → ((i j : ℕ) → i ≤ j → j < n → f i ≡ true → f j ≡ true)
      → sort_search n f < n
      → f (sort_search n f) ≡ true

-- The first `k` entries are not behind the offset, and the others are: the loop ends at the last
-- of the first ones.
scan-get_elem? :
    (offset : ℕ) (xs : List OffsetPair) (start : OffsetPair) (k : ℕ)
    → k < length xs
    → ((i : ℕ) → i ≤ k → is_behind xs offset i ≡ false)
    → (suc k < length xs → is_behind xs offset (suc k) ≡ true)
    → get_elem? xs k ≡ some (scan offset start xs)
unfolding scan
scan-get_elem? offset [] start k p f g = absurd (omega arith)
scan-get_elem? offset (x ∷ []) start zero p f g =
    let b : ltb offset x.uncompressed_offset ≡ false = f 0 (omega arith) in rw b refl
scan-get_elem? offset (x ∷ y ∷ xs) start zero p f g =
    let b : ltb offset x.uncompressed_offset ≡ false = f 0 (omega arith) in
    let c : ltb offset y.uncompressed_offset ≡ true = g (omega arith) in rw (b, c) refl
scan-get_elem? offset (x ∷ xs) start (suc k) p f g =
    let b : ltb offset x.uncompressed_offset ≡ false = f 0 (omega arith) in
    rw b (
      scan-get_elem? offset xs x k (omega arith) (λ i q. f (suc i) (omega arith))
        (λ q. g (omega arith)))

is_behind-monotone :
    (est offset : ℕ) (xs : List OffsetPair)
    → Spaced est xs
    → (i j : ℕ) → i ≤ j
    → j < length xs
    → is_behind xs offset i ≡ true
    → is_behind xs offset j ≡ true
is_behind-monotone est offset [] s i j p q e = absurd (omega arith)
is_behind-monotone est offset (x ∷ xs) s zero zero p q e = e
is_behind-monotone est offset (x ∷ xs) s zero (suc j) p q e =
    all_behind xs j (omega arith)
      (All-map _ _ xs (λ y a. ground (arith, a, ltb→lt offset x.uncompressed_offset e)) s.0)
  where
    all_behind :
        (ys : List OffsetPair) (k : ℕ)
        → k < length ys
        → All (λ y. ltb offset y.uncompressed_offset ≡ true) ys
        → is_behind ys offset k ≡ true
    all_behind [] k r h = absurd (omega arith)
    all_behind (y ∷ ys) zero r h = h.0
    all_behind (y ∷ ys) (suc k) r h = all_behind ys k (omega arith) h.1
is_behind-monotone est offset (x ∷ xs) s (suc i) zero p q e = absurd (omega arith)
is_behind-monotone est offset (x ∷ xs) s (suc i) (suc j) p q e =
    is_behind-monotone est offset xs s.1 i j (omega arith) (omega arith) e

-- sort.Search and the loop end at the same entry, when the first entry is not behind the offset.
pub find_sorted-scan :
    (sort_search : ℕ → (ℕ → Bool) → ℕ) (est offset : ℕ) (start first : OffsetPair)
    (xs : List OffsetPair)
    → Searches sort_search
    → Spaced est (first ∷ xs)
    → first.uncompressed_offset ≤ offset
    → find_sorted sort_search offset (first ∷ xs) ≡ found (scan offset start (first ∷ xs))
unfolding find_sorted
find_sorted-scan sort_search est offset start first xs law s p =
    let offsets = first ∷ xs in
    let n = sort_search (length offsets) (is_behind offsets offset) in
    let monotone = is_behind-monotone est offset offsets s in
    let inside = law.within (length offsets) (is_behind offsets offset) in
    let before = law.before (length offsets) (is_behind offsets offset) monotone in
    let behind = law.at (length offsets) (is_behind offsets offset) monotone in
    let first_before : is_behind offsets offset 0 ≡ false = ground arith in
    elim (Bool-cases (n == 0)) [
      | inl a ↦
          let none_before : n ≡ 0 = (==_iff n 0).0 a in
          let e : is_behind offsets offset 0 ≡ true =
            subst (λ k. is_behind offsets offset k ≡ true) none_before
              (behind (omega (arith, none_before))) in
          absurd (ground (arith, e, first_before))
      | inr a ↦
          let positive : 1 ≤ n = ground arith in
          let one : suc (n - 1) ≡ n = omega (arith, positive) in
          rw
            (
              find_sorted,
              a,
              scan-get_elem? offset offsets start (n - 1) (omega (arith, positive, inside))
                  (λ i q. before i (omega (arith, positive, q)))
                  (λ q. rw one (behind (rw one at q))),
            )
            refl
    ]
