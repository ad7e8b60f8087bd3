-- ===== src/Index/Tests.antt =====
-- Concrete runs of add, Find and appendTo, and their lemmas at concrete indexes.
use minlz.Index.Varint.{append_varint}
use minlz.Reference.Encoder.{append_uvarint}
use minlz.Prelude.{◌++◌, some}
use minlz.Prelude.{ℕ, ◌++◌, zero, suc, ◌≤◌, ◌<◌, ◌≡◌, refl, arith, [], ◌∷◌, none, some}
use minlz.Prelude.{Bool, true, false, Bool-cases, inl, inr, if◌then◌else◌}
use minlz.Index.State.{OffsetPair, Index, added, add, append_offset, thin}
use minlz.Index.State.{from_end, found, find, find_inside, scan}
use minlz.Index.State.{reset, grow, min_index_dist}
use minlz.Index.Reset.{reset-IsValid}
use minlz.Index.Spaced.{IsValid, Adds, add-Adds}
use minlz.Reference.Encoder.{append_uvarint}
use minlz.Index.Varint.{append_varint, zigzag}
use minlz.Index.Format.{put_entries, has_uncompressed, put_uncompressed}
use minlz.Index.Format.{put_compressed, delta, predict, half64, sub64, add64}
use minlz.Index.Binary.{append_to, append_reduced, reduce}
use minlz.Index.RoundTrip.{Loads, load-append_to}
use minlz.Prelude.{replicate}
use minlz.Index.Format.{index_header}
use minlz.Index.Headers.{remove_index_headers, restore_index_headers, removed, panics}
use minlz.Index.Headers.{remove_index_headers-restore_index_headers, remove_index_headers-panics}
use minlz.Prelude.{length}
use minlz.Index.State.{max_index_entries}
use minlz.Index.Reduce.{reduce-IsValid}
use minlz.Index.Search.{Searches}
use minlz.Index.Find.{Finds, find-Finds}

-- The first index that `f` accepts.
abbrev first : ℕ → (ℕ → Bool) → ℕ
first zero f = zero
first (suc n) f = let more = suc (first n (λ i. f (suc i))) in if f zero then zero else more

first-within : (n : ℕ) (f : ℕ → Bool) → first n f ≤ n
first-within zero f = omega arith
first-within (suc n) f = elim (Bool-cases (f zero)) [
  | inl a ↦ rw a (omega arith)
  | inr a ↦ rw a (omega (arith, first-within n (λ i. f (suc i))))
]

first-before : (n : ℕ) (f : ℕ → Bool) (i : ℕ) → i < first n f → f i ≡ false
first-before zero f i h = absurd (omega arith)
first-before (suc n) f zero h = elim (Bool-cases (f zero)) [
  | inl a ↦ absurd (omega (arith, rw a at h))
  | inr a ↦ a
]
first-before (suc n) f (suc i) h = elim (Bool-cases (f zero)) [
  | inl a ↦ absurd (omega (arith, rw a at h))
  | inr a ↦ first-before n (λ j. f (suc j)) i (omega (arith, rw a at h))
]

first-at : (n : ℕ) (f : ℕ → Bool) → first n f < n → f (first n f) ≡ true
first-at zero f h = absurd (omega arith)
first-at (suc n) f h = elim (Bool-cases (f zero)) [
  | inl a ↦ rw a a
  | inr a ↦ rw a (first-at n (λ i. f (suc i)) (omega (arith, rw a at h)))
]

first-Searches : Searches first
first-Searches = record {
  within = first-within;
  before = λ n f m. first-before n f;
  at = λ n f m. first-at n f;
}

abbrev pair : ℕ → ℕ → OffsetPair
pair c u = record { compressed_offset = c; uncompressed_offset = u }

abbrev two : Index
two = record {
  total_uncompressed = some 30;
  total_compressed = none;
  offsets = pair 10 0 ∷ pair 15 12 ∷ [];
  est_block_uncomp = 8;
}

add_sample :
    add two 20 22 ≡ added (record two { offsets = pair 10 0 ∷ pair 15 12 ∷ pair 20 22 ∷ [] })
unfolding add append_offset
add_sample = refl

near_sample : add two 20 19 ≡ added two
unfolding add
near_sample = refl

-- Every second entry goes, even when all are far enough apart.
thin_sample :
    thin 4 none (pair 1 0 ∷ pair 2 9 ∷ pair 3 18 ∷ pair 4 27 ∷ []) ≡ pair 1 0 ∷ pair 3 18 ∷ []
unfolding thin
thin_sample = refl

find_sample : find first two (from_end 0) ≡ found (pair 15 12)
unfolding find find_inside scan
find_sample = refl

reset_sample :
    reset 1000
    ≡ some (record {
      total_uncompressed = none;
      total_compressed = none;
      offsets = [];
      est_block_uncomp = 2048000;
    })
unfolding reset grow
reset_sample = refl

add-Adds_example : Adds 20 two (add two 20 22)
add-Adds_example = add-Adds two 20 22 (record {
  positive = omega arith;
  spaced = (((omega arith, omega arith), tt), (tt, tt));
  few = omega arith;
})

find-Finds_example : Finds two (from_end 4) (find first two (from_end 4))
find-Finds_example =
    find-Finds first two (from_end 4) 8 first-Searches (((omega arith, omega arith), tt), (tt, tt))
      (λ x e. grind (arith, e))

reset-IsValid_example :
    (i : Index) × (reset 1000 ≡ some i)
    × IsValid i
    × (i.offsets ≡ [])
    × (min_index_dist ≤ i.est_block_uncomp)
reset-IsValid_example = reset-IsValid 1000 (omega arith)

load-append_to_example : Loads two 30 18 (5 ∷ []) (append_to two [] 30 18)
load-append_to_example =
    load-append_to two 30 18 (5 ∷ [])
      (record {
        few = omega arith;
        estimate = omega arith;
        uncompressed = (omega arith, ((omega arith, omega arith), tt));
        compressed = (omega arith, ((omega arith, omega arith), tt));
      })
      (omega arith) (omega arith)

written_sample :
    append_to two [] 30 18
    ≡ some (
      two,
      64 ∷ 25 ∷ 0 ∷ 0 ∷ 115 ∷ 50 ∷ 105 ∷ 100 ∷ 120 ∷ 0 ∷ 60 ∷ 36 ∷ 16 ∷ 4 ∷ 1 ∷ 0 ∷ 8 ∷ 20 ∷ 2 ∷ 29
          ∷ 0 ∷ 0 ∷ 0 ∷ 0 ∷ 120 ∷ 100 ∷ 105 ∷ 50 ∷ 115 ∷ [],
    )
unfolding append_to append_reduced reduce put_entries has_uncompressed put_uncompressed
    put_compressed delta predict half64 append_varint zigzag append_uvarint sub64 add64
written_sample = refl

remove_index_headers-restore_index_headers_example :
    remove_index_headers (restore_index_headers (60 ∷ 36 ∷ 16 ∷ [])) ≡ removed (60 ∷ 36 ∷ 16 ∷ [])
remove_index_headers-restore_index_headers_example =
    remove_index_headers-restore_index_headers 60 (36 ∷ 16 ∷ []) (omega arith)

remove_index_headers-panics_example :
    remove_index_headers (64 ∷ 3 ∷ 0 ∷ 0 ∷ (index_header ++ replicate 11 0)) ≡ panics
remove_index_headers-panics_example =
    remove_index_headers-panics 3 (replicate 11 0) (omega arith) (omega arith)

reduce-IsValid_example :
    (j : Index) × (reduce two ≡ some j) × IsValid j × (length j.offsets < max_index_entries)
reduce-IsValid_example = reduce-IsValid two (record {
  positive = omega arith;
  spaced = (((omega arith, omega arith), tt), (tt, tt));
  few = omega arith;
})
