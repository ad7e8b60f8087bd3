-- ===== src/Reference/RoundTrip/Search.antt =====
-- What the encoder's loops find in a source of bytes: a match, extended as far as it goes.
use minlz.Prelude.{ℕ, zero, suc, ◌+◌, ◌*◌, ◌^◌, ◌≤◌, ◌<◌, ◌≡◌, refl, sym, ◌∙◌, ap, arith}
use minlz.Prelude.{List, [], ◌∷◌, length, some, All, get_elem?, get_elem?-lt}
use minlz.Prelude.{ltb, leb, ◌==◌, Bool-cases, inl, inr, ==_iff}
use minlz.Prelude.{ltb→le, leb→le}
use native.Mathlib.Nat.{add-zero}
use minlz.Bytes.{IsByte, le32, le32_lem}
use minlz.Reference.Reader.{ok}
use minlz.Reference.Encoder.{load32, Table, put, hash4, Search, remainder, found, search_match}
use minlz.Reference.Returns.{Returns, Returns-weaken}
use mathlib.Core.Path.{subst}

get_elem?-IsByte :
    (src : List ℕ) (i : ℕ) {b : ℕ} → All IsByte src → get_elem? src i ≡ some b → IsByte b
get_elem?-IsByte [] i h e = cc
get_elem?-IsByte (x ∷ xs) zero h e = ground arith
get_elem?-IsByte (x ∷ xs) (suc i) h e = get_elem?-IsByte xs i h.1 e

-- A load inside of the slice gives the word of its four bytes.
pub record Loaded (src : List ℕ) (i w : ℕ) : Type 0 where
  pub a : ℕ
  pub b : ℕ
  pub c : ℕ
  pub d : ℕ
  pub at_0 : get_elem? src i ≡ some a
  pub at_1 : get_elem? src (i + 1) ≡ some b
  pub at_2 : get_elem? src (i + 2) ≡ some c
  pub at_3 : get_elem? src (i + 3) ≡ some d
  pub word : w ≡ le32 a b c d

pub load32-Loaded :
    (src : List ℕ) (i : ℕ) → i + 4 ≤ length src → (w : ℕ) × (load32 src i ≡ ok w) × Loaded src i w
unfolding load32
load32-Loaded src i h =
    let (a, p) = get_elem?-lt src i (omega arith) in
    let (b, q) = get_elem?-lt src (i + 1) (omega arith) in
    let (c, r) = get_elem?-lt src (i + 2) (omega arith) in
    let (d, t) = get_elem?-lt src (i + 3) (omega arith) in
    (
      le32 a b c d,
      rw (p, q, r, t),
      record { a = a; b = b; c = c; d = d; at_0 = p; at_1 = q; at_2 = r; at_3 = t; word = refl },
    )

-- Equal words have equal bytes.
Loaded-equal :
    (src : List ℕ) (i j w : ℕ)
    → All IsByte src
    → (x : Loaded src i w) → (y : Loaded src j w)
    → (x.a ≡ y.a) × (x.b ≡ y.b) × (x.c ≡ y.c) × (x.d ≡ y.d)
Loaded-equal src i j w bytes x y =
    let e = sym x.word ∙ y.word in
    omega (
      arith,
      e,
      le32_lem x.a x.b x.c x.d (byte i x.at_0) (byte (i + 1) x.at_1) (byte (i + 2) x.at_2),
      le32_lem y.a y.b y.c y.d (byte j y.at_0) (byte (j + 1) y.at_1) (byte (j + 2) y.at_2),
      byte i x.at_0,
      byte (i + 1) x.at_1,
      byte (i + 2) x.at_2,
      byte j y.at_0,
      byte (j + 1) y.at_1,
      byte (j + 2) y.at_2,
    )
  where
    byte : (k : ℕ) {v : ℕ} → get_elem? src k ≡ some v → IsByte v
    byte k e = get_elem?-IsByte src k bytes e

Loaded-same :
    (src : List ℕ) (i j w : ℕ)
    → All IsByte src
    → Loaded src i w
    → Loaded src j w
    → (k : ℕ) → k < 4
    → get_elem? src (i + k) ≡ get_elem? src (j + k)
Loaded-same src i j w bytes x y zero h =
    rw (add-zero i, add-zero j) (x.at_0 ∙ ap some (Loaded-equal src i j w bytes x y).0 ∙ sym y.at_0)
Loaded-same src i j w bytes x y (suc zero) h =
    x.at_1 ∙ ap some (Loaded-equal src i j w bytes x y).1 ∙ sym y.at_1
Loaded-same src i j w bytes x y (suc (suc zero)) h =
    x.at_2 ∙ ap some (Loaded-equal src i j w bytes x y).2 ∙ sym y.at_2
Loaded-same src i j w bytes x y (suc (suc (suc zero))) h =
    x.at_3 ∙ ap some (Loaded-equal src i j w bytes x y).3 ∙ sym y.at_3
Loaded-same src i j w bytes x y (suc (suc (suc (suc k)))) h = absurd (omega arith)

-- What the search promises: a match of four bytes behind, and a table of positions up to it.
abbrev pub IsHit : (src : List ℕ) (s : ℕ) → Search → Type 0
IsHit src s remainder = Unit {0}
IsHit src s (found b c table) =
    (s ≤ b)
    × (c < b)
    × (b + 4 ≤ length src)
    × (b ≤ c + (2 * 2 ^ 20 + 65535))
    × ((k : ℕ) → k < 4 → get_elem? src (b + k) ≡ get_elem? src (c + k))
    × ((h : ℕ) → table h ≤ b)

IsHit-later : (src : List ℕ) (s : ℕ) (r : Search) → IsHit src (s + 1) r → IsHit src s r
IsHit-later src s remainder h = tt
IsHit-later src s (found b c table) (p, q, r, t, u, v) = (omega arith, q, r, t, u, v)

pub put-le : (table : Table) (x s h : ℕ) → ((k : ℕ) → table k < s) → put table x s h ≤ s
unfolding put
put-le table x s h below = ground (arith, below h)

pub search_match-IsHit :
    (fuel : ℕ) (src : List ℕ) (s : ℕ) (table : Table)
    → All IsByte src
    → 1 ≤ fuel
    → length src < fuel + s + 3
    → ((h : ℕ) → table h < s)
    → Returns (IsHit src s) (search_match fuel src s table)
unfolding search_match
search_match-IsHit zero src s table bytes f p below = absurd (omega arith)
search_match-IsHit (suc fuel) src s table bytes f p below =
    elim (Bool-cases (ltb (length src) (s + 4))) [
      | inl a ↦ rw a tt
      | inr a ↦
          let (cv, e, x) = load32-Loaded src s (ltb→le _ _ a) in
          let candidate = table (hash4 cv) in
          let table' = put table (hash4 cv) s in
          let up : (h : ℕ) → table' h ≤ s = λ h. put-le table (hash4 cv) s h below in
          let rest =
            Returns-weaken (IsHit src (s + 1)) (IsHit src s) (search_match fuel src (s + 1) table')
              (search_match-IsHit fuel src (s + 1) table' bytes (omega (arith, ltb→le _ _ a))
                (omega arith) (λ h. omega (arith, up h)))
              (IsHit-later src s) in
          rw (a, e)
            (elim (Bool-cases (leb s (candidate + (2 * 2 ^ 20 + 65535)))) [
              | inr b ↦ rw b rest
              | inl b ↦
                  let (cw, g, y) =
                    load32-Loaded src candidate (omega (arith, below (hash4 cv), ltb→le _ _ a)) in
                  rw (b, g)
                    (elim (Bool-cases (cv == cw)) [
                      | inr c ↦ rw c rest
                      | inl c ↦
                          let same : cw ≡ cv = sym ((==_iff cv cw).0 c) in
                          rw c (
                            omega arith,
                            below (hash4 cv),
                            ltb→le _ _ a,
                            leb→le _ _ b,
                            Loaded-same src s candidate cv bytes x
                                (subst (Loaded src candidate) same y),
                            up,
                          )
                    ])
            ])
    ]
