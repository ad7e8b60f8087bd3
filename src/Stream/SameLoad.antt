-- ===== src/Stream/SameLoad.antt =====
-- LoadIndex of internal/reference against Load of index.go.
use minlz.Prelude.{ℕ, zero, suc, ◌≡◌, ◌≢◌, ◌<◌, refl, arith, List, [], ◌∷◌, Option, none, some}
use minlz.Prelude.{Bool, true, false, ◌||◌, length, take, drop, ltb, leb, ◌==◌, if◌then◌else◌}
use minlz.Prelude.{Bool-cases, Option-cases, inl, inr, get_elem?}
use minlz.Bytes.{le24}
use minlz.Index.State
use minlz.Index.Varint.{varint}
use minlz.Index.Format.{
  negative64, half64, predict, undelta, refused, load_number, load_uncompressed, load_compressed,
  load_entries, index_header, index_trailer,
}
use minlz.Index.Format
use minlz.Index.Format.{Loaded, loaded, corrupt, unexpected_eof, unsupported}
use minlz.Index.Binary.{known, equal, zip, load, load_chunk, load_body, load_rest, load_trailer}
use minlz.Stream.Result
use minlz.Stream.Result.{StreamError, Read, value, failed, panics, stuck}
use minlz.Stream.Load.{
  Index, read_number, is_not_after, read_uncompressed, read_compressed, read_entries, read_trailer,
  read_rest, read_body, load_index_after_header, load_index,
}

abbrev Fails {ℓ} : {B : Type ℓ} → Read B → Type 0
Fails (value b) = ⊥
Fails (failed e) = Unit {0}
Fails panics = ⊥
Fails stuck = ⊥

-- Both return, values that `R` relates, or both report an error.
abbrev pub Same {ℓ κ} : {A : Type ℓ} {B : Type κ} → (A → B → Type 0) → Loaded A → Read B → Type 0
Same R (loaded a) (value b) = R a b
Same R (loaded a) (failed e) = ⊥
Same R (loaded a) panics = ⊥
Same R (loaded a) stuck = ⊥
Same R corrupt r = Fails r
Same R unexpected_eof r = Fails r
Same R unsupported r = Fails r

module _ {ℓ} {A B C D : Type ℓ} (R : A → B → Type 0) (Q : C → D → Type 0) where
  Same-bind :
      (m : Loaded A) (n : Read B) (f : A → Loaded C) (g : B → Read D)
      → Same R m n
      → ((a : A) (b : B) → R a b → Same Q (f a) (g b))
      → Same Q (Format.◌>>=◌ m f) (Result.◌>>=◌ n g)
  Same-bind (loaded a) (value b) f g h k = k a b h
  Same-bind corrupt (failed e) f g h k = tt
  Same-bind unexpected_eof (failed e) f g h k = tt
  Same-bind unsupported (failed e) f g h k = tt
  Same-bind (loaded a) (failed e) f g h k = elim h [ ]
  Same-bind (loaded a) panics f g h k = elim h [ ]
  Same-bind (loaded a) stuck f g h k = elim h [ ]
  Same-bind corrupt (value b) f g h k = elim h [ ]
  Same-bind corrupt panics f g h k = elim h [ ]
  Same-bind corrupt stuck f g h k = elim h [ ]
  Same-bind unexpected_eof (value b) f g h k = elim h [ ]
  Same-bind unexpected_eof panics f g h k = elim h [ ]
  Same-bind unexpected_eof stuck f g h k = elim h [ ]
  Same-bind unsupported (value b) f g h k = elim h [ ]
  Same-bind unsupported panics f g h k = elim h [ ]
  Same-bind unsupported stuck f g h k = elim h [ ]

module _ {ℓ} {A B : Type ℓ} (R : A → B → Type 0) where
  Same-if :
      (t : Bool) (m m' : Loaded A) (n n' : Read B)
      → Same R m n
      → Same R m' n'
      → Same R (if t then m else m') (if t then n else n')
  Same-if true m m' n n' h k = h
  Same-if false m m' n n' h k = k

  Same-refused :
      (prev : Option ℕ) (u : ℕ) (e e' : StreamError) (m : Loaded A) (n : Read B)
      → Same R m n
      → Same R
          (if refused prev u then corrupt else m)
          (if is_not_after prev u then failed e else if negative64 u then failed e' else n)
  unfolding refused is_not_after
  Same-refused none u e e' m n h = Same-if (negative64 u) corrupt m (failed e') n tt h
  Same-refused (some prev) u e e' m n h = elim (Bool-cases (is_not_after (some prev) u)) [
    | inl a ↦ rw a tt
    | inr a ↦ rw a (Same-if (negative64 u) corrupt m (failed e') n tt h)
  ]

-- The same value on both sides.
abbrev Both : {A : Type 0} → Loaded A → Read A → Type 0
Both {A} m n = Same {A = A} {B = A} (λ a b. a ≡ b) m n

Both-bind :
    {A : Type 0} {D : Type 0} {C : Type 0} (Q : C → D → Type 0) (m : Loaded A) (n : Read A)
    (f : A → Loaded C) (g : A → Read D)
    → Both m n
    → ((a : A) → Same Q (f a) (g a))
    → Same Q (Format.◌>>=◌ m f) (Result.◌>>=◌ n g)
Both-bind Q m n f g h k = Same-bind (λ a b. a ≡ b) Q m n f g h (λ a b e. rw e (k b))

read_number-Both : (e : StreamError) (b : List ℕ) → Both (load_number b) (read_number e b)
unfolding load_number read_number
read_number-Both e b = elim (Option-cases (varint b)) [
  | inl a ↦ rw (a, load_number, read_number) tt
  | inr (r, a) ↦ rw (a, load_number, read_number) refl
]

read_uncompressed-Both :
    (est : ℕ) (has : Bool) (prev : Option ℕ) (n : ℕ) (b : List ℕ)
    → Both (load_uncompressed est has prev n b) (read_uncompressed est has prev n b)
unfolding load_uncompressed read_uncompressed
read_uncompressed-Both est has prev zero b = refl
read_uncompressed-Both est has prev (suc n) b =
    Both-bind (λ r s. r ≡ s) _ _ _ _
      (Same-if (λ r s. r ≡ s) has (load_number b) (loaded (0, b)) _ (value (0, b))
        (read_number-Both _ b) refl)
      λ r.
        Same-refused (λ r s. r ≡ s) prev (undelta est prev r.0) _ _ _ _
          (Both-bind (λ r s. r ≡ s) _ _ _ _
            (read_uncompressed-Both est has (some (undelta est prev r.0)) n r.1) (λ t. refl))

read_compressed-Both :
    (step : ℕ) (prev : Option ℕ) (n : ℕ) (b : List ℕ)
    → Both (load_compressed step prev n b) (read_compressed step prev n b)
unfolding load_compressed read_compressed
read_compressed-Both step prev zero b = refl
read_compressed-Both step prev (suc n) b =
    Both-bind (λ r s. r ≡ s) _ _ _ _ (read_number-Both _ b)
      λ r.
        Same-refused (λ r s. r ≡ s) prev (undelta step prev r.0) _ _ _ _
          (Both-bind (λ r s. r ≡ s) _ _ _ _
            (read_compressed-Both (predict step prev r.0) (some (undelta step prev r.0)) n r.1)
            (λ t. refl))

read_entries-Both : (est n : ℕ) (b : List ℕ) → Both (load_entries est n b) (read_entries est n b)
unfolding load_entries read_entries
read_entries-Both est n [] = tt
read_entries-Both est n (flag ∷ b) =
    Same-if (λ r s. r ≡ s) (ltb 1 flag) corrupt _ (failed _) _ tt
      (Both-bind (λ r s. r ≡ s) _ _ _ _ (read_uncompressed-Both est (flag == 1) none n b)
        λ u.
          Both-bind (λ r s. r ≡ s) _ _ _ _ (read_compressed-Both (half64 est) none n u.1)
            (λ c. refl))

-- The index of index.go with the numbers that were read.
abbrev pub as_index : Index → State.Index
as_index j = record {
  total_uncompressed = known j.total_uncompressed;
  total_compressed = known j.total_compressed;
  offsets = j.blocks;
  est_block_uncomp = j.est_block_uncomp;
}

abbrev pub SameIndex : State.Index × List ℕ → Index → Type 0
SameIndex r j = r.0 ≡ as_index j

read_trailer-Same :
    (j : Index) (b : List ℕ) → Same SameIndex (load_trailer (as_index j) b) (read_trailer j b)
unfolding load_trailer read_trailer
read_trailer-Same j b =
    Same-if SameIndex (ltb (length b) 10) unexpected_eof _ (failed _) _ tt
      (Same-if SameIndex (equal (take 6 (drop 4 b)) index_trailer) _ corrupt _ (failed _) refl tt)

read_rest-Same :
    (u c est n : ℕ) (b : List ℕ) → Same SameIndex (load_rest u c est n b) (read_rest u c est n b)
unfolding load_rest read_rest
read_rest-Same u c est n b =
    Same-if SameIndex (negative64 n || ltb 65536 n) corrupt _ (failed _) _ tt (
      Both-bind SameIndex _ _ _ _ (read_entries-Both est n b) (λ e.
        read_trailer-Same
          (record {
            total_uncompressed = u;
            total_compressed = c;
            blocks = zip e.0 e.1;
            est_block_uncomp = est;
          })
          e.2))

pub read_body-Same : (b : List ℕ) → Same SameIndex (load_body b) (read_body b)
unfolding load_body read_body
read_body-Same b = Both-bind SameIndex _ _ _ _ (read_number-Both _ b) λ u.
    Same-if SameIndex (negative64 u.0) corrupt _ (failed _) _ tt (
      Both-bind SameIndex _ _ _ _ (read_number-Both _ u.1) λ c.
        Both-bind SameIndex _ _ _ _ (read_number-Both _ c.1) λ est.
          Same-if SameIndex (negative64 est.0) corrupt _ (failed _) _ tt (
            Both-bind SameIndex _ _ _ _ (read_number-Both _ est.1)
              (λ n. read_rest-Same u.0 c.0 est.0 n.0 n.1)))

load_chunk-Same :
    (n : ℕ) (b : List ℕ)
    → 12 < length b
    → Same SameIndex
        (load_chunk n b)
        (if ltb (length b) n then failed Result.truncated else load_index_after_header b)
unfolding load_chunk load_index_after_header
load_chunk-Same n b h =
    let long : ltb (length b) 6 ≡ false = ground arith in
    rw (long, load_index_after_header)
      (Same-if SameIndex (ltb (length b) n) unexpected_eof _ (failed _) _ tt (
        Same-if SameIndex (equal (take 6 b) index_header) _ unsupported _ (failed _)
          (read_body-Same (drop 6 b)) tt))

-- On every chunk but one of the older type 0x99, LoadIndex of internal/reference and Load of
-- index.go accept the same bytes and read the same index from them: the offsets, the block estimate
-- and the totals, where Load takes a negative total for one that is not known. LoadIndex does not
-- panic.
pub load_index-Same :
    (b : List ℕ) → get_elem? b 0 ≢ some 153 → Same SameIndex (load b) (load_index b)
unfolding load load_index
load_index-Same [] h = tt
load_index-Same (t ∷ []) h = tt
load_index-Same (t ∷ x ∷ []) h = tt
load_index-Same (t ∷ x ∷ y ∷ []) h = tt
load_index-Same (t ∷ x ∷ y ∷ z ∷ b) h = elim (Bool-cases (leb (length b) 12)) [
  | inl e ↦ rw e tt
  | inr e ↦
      let long : 12 < length b = ground arith in
      let new : ((t == 64) || (t == 153)) ≡ (t == 64) = ground arith in
      rw (e, new)
        (Same-if SameIndex (t == 64) _ corrupt _ (failed _) (load_chunk-Same (le24 x y z) b long)
          tt)
]
