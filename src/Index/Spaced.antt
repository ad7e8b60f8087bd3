-- ===== src/Index/Spaced.antt =====
-- add of index.go keeps the entries in order, apart, and few enough.
use minlz.Prelude.{ℕ, ◌+◌, ◌*◌, ◌≤◌, ◌<◌, ◌≡◌, sym, refl, arith, List, [], ◌∷◌, ◌++◌, All}
use mathlib.Core.Path.{subst}
use mathlib.Core.Option.{some_inj}
use minlz.Prelude.{
  Option, none, some, length, length-append, ltb, Bool-cases, inl, inr, true, false, ltb→lt,
}
use minlz.Prelude.Slices.{All-map}
use minlz.Index.State.{OffsetPair, Index, max_index_entries, last, thin, reduce_light}
use minlz.Index.State.{Added, added, earlier_uncompressed, earlier_compressed, append_offset, add}

-- `y` is no earlier in the compressed stream than `x`, and `est` or more behind it when decoded.
abbrev pub Apart : (est : ℕ) (x y : OffsetPair) → Type 0
Apart est x y =
    (x.uncompressed_offset + est ≤ y.uncompressed_offset)
    × (x.compressed_offset ≤ y.compressed_offset)

abbrev pub Spaced : (est : ℕ) → List OffsetPair → Type 0
Spaced est [] = Unit {0}
Spaced est (x ∷ xs) = All (Apart est x) xs × Spaced est xs

-- The invariant of an index that is being built.
pub record IsValid (i : Index) : Type 0 where
  pub positive : 1 ≤ i.est_block_uncomp
  pub spaced : Spaced i.est_block_uncomp i.offsets
  pub few : length i.offsets ≤ max_index_entries

All-last :
    (P : OffsetPair → Type 0) (xs : List OffsetPair) (z : OffsetPair)
    → All P xs
    → last xs ≡ some z
    → P z
All-last P [] z h e = cc
All-last P (x ∷ []) z h e = subst P (some_inj.0 e) h.0
All-last P (x ∷ y ∷ xs) z h e = All-last P (y ∷ xs) z h.1 e

All-no_last : (P : OffsetPair → Type 0) (xs : List OffsetPair) → last xs ≡ none → All P xs
All-no_last P [] e = tt
All-no_last P (x ∷ []) e = cc
All-no_last P (x ∷ y ∷ xs) e = absurd (last-cons y xs e)
  where
    last-cons : (y : OffsetPair) (xs : List OffsetPair) → last (y ∷ xs) ≡ none → ⊥
    last-cons y [] e = cc
    last-cons y (z ∷ xs) e = last-cons z xs e

-- What is behind the last entry is behind every entry.
All-before :
    (est : ℕ) (xs : List OffsetPair) (y z : OffsetPair)
    → Spaced est xs
    → last xs ≡ some z
    → Apart est z y
    → All (λ x. Apart est x y) xs
All-before est [] y z s e a = tt
All-before est (x ∷ []) y z s e a =
    let same = sym (some_inj.0 e) in (subst (λ w. Apart est w y) same a, tt)
All-before est (x ∷ x' ∷ xs) y z s e a =
    let b = All-last (Apart est x) (x' ∷ xs) z s.0 e in
    ((omega (arith, a, b), omega (arith, a, b)), All-before est (x' ∷ xs) y z s.1 e a)

Spaced-append :
    (est : ℕ) (xs : List OffsetPair) (y : OffsetPair)
    → Spaced est xs
    → All (λ x. Apart est x y) xs
    → Spaced est (xs ++ (y ∷ []))
Spaced-append est [] y s h = (tt, tt)
Spaced-append est (x ∷ xs) y s h =
    (All-append_one (Apart est x) xs y s.0 h.0, Spaced-append est xs y s.1 h.1)
  where
    All-append_one :
        (P : OffsetPair → Type 0) (ys : List OffsetPair) (z : OffsetPair)
        → All P ys
        → P z
        → All P (ys ++ (z ∷ []))
    All-append_one P [] z k p = (p, tt)
    All-append_one P (w ∷ ys) z k p = (k.0, All-append_one P ys z k.1 p)

-- Thinning keeps what holds of all entries.
thin-All :
    (P : OffsetPair → Type 0) (est : ℕ) (xs : List OffsetPair) (base : Option OffsetPair)
    → All P xs
    → All P (thin est base xs)
unfolding thin
thin-All P est [] none h = tt
thin-All P est [] (some b) h = tt
thin-All P est (x ∷ xs) none h = (h.0, thin-All P est xs _ h.1)
thin-All P est (x ∷ xs) (some b) h = thin-All P est xs _ h.1

-- Behind a base, thinning keeps only entries that are `est` or more away from it.
thin-Apart :
    (e est : ℕ) (b : OffsetPair) (xs : List OffsetPair)
    → Spaced e xs
    → All (Apart e b) xs
    → All (Apart est b) (thin est (some b) xs)
unfolding thin
thin-Apart e est b [] s h = tt
thin-Apart e est b (x ∷ xs) s h =
    elim (Bool-cases (ltb x.uncompressed_offset (b.uncompressed_offset + est))) [
      | inl a ↦ rw a (thin-Apart e est b xs s.1 h.1)
      | inr a ↦ rw a (
          thin-All (Apart est b) est xs none (
            All-map (Apart e x) (Apart est b) xs
              (λ y p. (ground (arith, p), omega (arith, p, h.0.1))) s.0))
    ]

thin-Spaced :
    (e est : ℕ) (xs : List OffsetPair) (base : Option OffsetPair)
    → 1 ≤ est
    → Spaced e xs
    → Spaced est (thin est base xs)
unfolding thin
thin-Spaced e est [] none p s = tt
thin-Spaced e est [] (some b) p s = tt
thin-Spaced e est (x ∷ xs) none p s =
    let positive : ltb 0 est ≡ true = ground arith in
    rw positive (thin-Apart e est x xs s.1 s.0, thin-Spaced e est xs (some x) p s.1)
thin-Spaced e est (x ∷ xs) (some b) p s = thin-Spaced e est xs _ p s.1

-- Thinning halves the entries at least, and an odd one stays.
mutual
  unfolding thin

  length-thin-none :
      (est : ℕ) (xs : List OffsetPair) → 1 ≤ est → 2 * length (thin est none xs) ≤ length xs + 1
  length-thin-none est [] p = omega arith
  length-thin-none est (x ∷ xs) p =
      let positive : ltb 0 est ≡ true = ground arith in
      rw positive (omega (arith, length-thin-some est x xs p))

  length-thin-some :
      (est : ℕ) (b : OffsetPair) (xs : List OffsetPair)
      → 1 ≤ est
      → 2 * length (thin est (some b) xs) ≤ length xs
  length-thin-some est b [] p = omega arith
  length-thin-some est b (x ∷ xs) p =
      elim (Bool-cases (ltb x.uncompressed_offset (b.uncompressed_offset + est))) [
        | inl a ↦ rw a (omega (arith, length-thin-some est b xs p))
        | inr a ↦ rw a (omega (arith, length-thin-none est xs p))
      ]

-- An entry that is far enough behind the last one.
append_offset-IsValid :
    (i : Index) (x : OffsetPair)
    → IsValid i
    → All (λ y. Apart i.est_block_uncomp y x) i.offsets
    → IsValid (append_offset i x)
unfolding append_offset reduce_light
append_offset-IsValid i x v h =
    let offsets = i.offsets ++ (x ∷ []) in
    let spaced = Spaced-append i.est_block_uncomp i.offsets x v.spaced h in
    let size : length offsets ≡ length i.offsets + 1 = length-append i.offsets (x ∷ []) in
    elim (Bool-cases (ltb max_index_entries (length offsets))) [
      | inr a ↦ rw a (record { positive = v.positive; spaced = spaced; few = ground arith })
      | inl a ↦
          let est = i.est_block_uncomp * 2 in
          let positive : 1 ≤ est = omega (arith, v.positive) in
          rw a (record {
            positive = positive;
            spaced = thin-Spaced i.est_block_uncomp est offsets none positive spaced;
            few = omega (arith, v.few, size, length-thin-none est offsets positive);
          })
    ]

-- What add returns from a valid index: a valid one, or the error for an earlier compressed offset.
abbrev pub Adds : (c : ℕ) → Index → Added → Type 0
Adds c i (added j) = IsValid j
Adds c i earlier_uncompressed = ⊥
Adds c i earlier_compressed =
    (x : OffsetPair) × (last i.offsets ≡ some x) × (c < x.compressed_offset)

-- From a valid index, whose entries are the block estimate or more apart and no more than 65536,
-- add returns a valid index again, also when it thins the entries out. It reports an error only
-- for a compressed offset before that of the last entry, and never the one for an earlier
-- uncompressed offset.
pub add-Adds : (i : Index) (c u : ℕ) → IsValid i → Adds c i (add i c u)
unfolding add
add-Adds i c u v = at_last (last i.offsets) refl
  where
    x : OffsetPair
    x = record { compressed_offset = c; uncompressed_offset = u }

    at_last : (o : Option OffsetPair) → last i.offsets ≡ o → Adds c i (add i c u)
    at_last none e = rw (add, e) (append_offset-IsValid i x v (All-no_last _ i.offsets e))
    at_last (some latest) e =
        elim (Bool-cases (ltb u (latest.uncompressed_offset + i.est_block_uncomp))) [
          | inl a ↦ rw (add, e, a) v
          | inr a ↦
              let later : ltb u latest.uncompressed_offset ≡ false = ground arith in
              elim (Bool-cases (ltb c latest.compressed_offset)) [
                | inl b ↦ rw (add, e, a, later, b) (latest, e, ltb→lt _ _ b)
                | inr b ↦
                    rw (add, e, a, later, b)
                      (append_offset-IsValid i x v (
                        All-before i.est_block_uncomp i.offsets x latest v.spaced e
                          (ground arith, ground arith)))
              ]
        ]
