-- ===== src/Index/Entries.antt =====
-- Load reads back the entries that appendTo writes (index.go).
use minlz.Prelude.{ℕ, ◌+◌, ◌%◌, ◌^◌, ◌<◌, ◌≡◌, refl, sym, arith}
use minlz.Prelude.{List, [], ◌∷◌, ◌++◌, append_assoc, Option, none, some, length, drop-append}
use minlz.Prelude.{true, false, ◌==◌, ==_iff, Bool-cases, inl, inr}
use minlz.Index.State.{OffsetPair}
use minlz.Index.Varint.{append_varint, varint-append_varint}
use minlz.Index.Format.{add64, sub64, half64, le64, delta, undelta, predict, refused, load_number}
use minlz.Index.Format.{has_uncompressed, put_uncompressed, put_compressed, put_entries}
use minlz.Index.Format.{loaded, load_uncompressed, load_compressed, load_entries}

-- `x` may follow `prev`: it is greater, and no negative number.
abbrev pub Follows : Option ℕ → ℕ → Type 0
Follows none x = x < 2 ^ 63
Follows (some prev) x = (prev < x) × (x < 2 ^ 63)

-- The offsets that `f` takes from the entries rise from `prev` on.
abbrev pub Rises : (f : OffsetPair → ℕ) → Option ℕ → List OffsetPair → Type 0
Rises f prev [] = Unit {0}
Rises f prev (x ∷ xs) = Follows prev (f x) × Rises f (some (f x)) xs

abbrev pub map : (OffsetPair → ℕ) → List OffsetPair → List ℕ
map f [] = []
map f (x ∷ xs) = f x ∷ map f xs

undelta-delta :
    (step : ℕ) (prev : Option ℕ) (x : ℕ) → x < 2 ^ 64 → undelta step prev (delta step prev x) ≡ x
unfolding delta undelta add64 sub64
undelta-delta step none x h = refl
undelta-delta step (some p) x h = omega arith

delta-fits : (step : ℕ) (prev : Option ℕ) (x : ℕ) → x < 2 ^ 64 → delta step prev x < 2 ^ 64
unfolding delta sub64
delta-fits step none x h = h
delta-fits step (some p) x h = omega arith

Follows-fits : (prev : Option ℕ) (x : ℕ) → Follows prev x → x < 2 ^ 64
Follows-fits none x h = omega arith
Follows-fits (some p) x h = omega (arith, h)

Follows-refused : (prev : Option ℕ) (x : ℕ) → Follows prev x → refused prev x ≡ false
unfolding refused le64
Follows-refused none x h = ground arith
Follows-refused (some p) x h = ground (arith, h)

pub load_number-append_varint :
    (x : ℕ) (rest : List ℕ)
    → x < 2 ^ 64
    → load_number (append_varint [] x ++ rest) ≡ loaded (x, rest)
unfolding load_number
load_number-append_varint x rest h =
    rw (load_number, varint-append_varint x rest h, drop-append (append_varint [] x) rest) refl

load_uncompressed-put_uncompressed :
    (est : ℕ) (prev : Option ℕ) (xs : List OffsetPair) (rest : List ℕ)
    → Rises (λ x. x.uncompressed_offset) prev xs
    → load_uncompressed est true prev (length xs) (put_uncompressed est prev xs ++ rest)
      ≡ loaded (map (λ x. x.uncompressed_offset) xs, rest)
unfolding load_uncompressed put_uncompressed
load_uncompressed-put_uncompressed est prev [] rest h = refl
load_uncompressed-put_uncompressed est prev (x ∷ xs) rest h =
    let u = x.uncompressed_offset in
    let fits = Follows-fits prev u h.0 in
    rw
      (
        append_assoc (append_varint [] (delta est prev u)) (put_uncompressed est (some u) xs) rest,
        load_number-append_varint (delta est prev u) (put_uncompressed est (some u) xs ++ rest)
            (delta-fits est prev u fits),
        undelta-delta est prev u fits,
        Follows-refused prev u h.0,
        load_uncompressed-put_uncompressed est (some u) xs rest h.1,
      )
      refl

load_compressed-put_compressed :
    (step : ℕ) (prev : Option ℕ) (xs : List OffsetPair) (rest : List ℕ)
    → Rises (λ x. x.compressed_offset) prev xs
    → load_compressed step prev (length xs) (put_compressed step prev xs ++ rest)
      ≡ loaded (map (λ x. x.compressed_offset) xs, rest)
unfolding load_compressed put_compressed
load_compressed-put_compressed step prev [] rest h = refl
load_compressed-put_compressed step prev (x ∷ xs) rest h =
    let c = x.compressed_offset in
    let d = delta step prev c in
    let fits = Follows-fits prev c h.0 in
    let more = put_compressed (predict step prev d) (some c) xs in
    rw
      (
        append_assoc (append_varint [] d) more rest,
        load_number-append_varint d (more ++ rest) (delta-fits step prev c fits),
        undelta-delta step prev c fits,
        Follows-refused prev c h.0,
        load_compressed-put_compressed (predict step prev d) (some c) xs rest h.1,
      )
      refl

true-ne-false : true ≡ false → ⊥
true-ne-false e = cc

load_uncompressed-regular :
    (est : ℕ) (prev : Option ℕ) (xs : List OffsetPair) (b : List ℕ)
    → Rises (λ x. x.uncompressed_offset) prev xs
    → has_uncompressed est prev xs ≡ false
    → load_uncompressed est false prev (length xs) b
      ≡ loaded (map (λ x. x.uncompressed_offset) xs, b)
unfolding load_uncompressed has_uncompressed undelta add64
load_uncompressed-regular est prev [] b h e = refl
load_uncompressed-regular est none (x ∷ xs) b h e = elim (Bool-cases (x.uncompressed_offset == 0)) [
  | inr a ↦ absurd (true-ne-false (rw a at e))
  | inl a ↦
      let same : 0 ≡ x.uncompressed_offset = sym ((==_iff _ _).0 a) in
      let rest = load_uncompressed-regular est (some x.uncompressed_offset) xs b h.1 (rw a at e) in
      rw (same, rest) refl
]
load_uncompressed-regular est (some p) (x ∷ xs) b h e =
    elim (Bool-cases (x.uncompressed_offset == (p + est) % 2 ^ 64)) [
      | inr a ↦ absurd (true-ne-false (rw a at e))
      | inl a ↦
          let same : (0 + (p + est) % 2 ^ 64) % 2 ^ 64 ≡ x.uncompressed_offset =
            omega (arith, (==_iff _ _).0 a) in
          let rest =
            load_uncompressed-regular est (some x.uncompressed_offset) xs b h.1 (rw a at e) in
          rw (same, Follows-refused (some p) x.uncompressed_offset h.0, rest) refl
    ]

-- For every list of entries whose uncompressed and compressed offsets rise and are not negative, and
-- every block estimate, Load reads back both lists of offsets from the entries that appendTo
-- writes, with or without the uncompressed ones, and nothing of what follows.
pub load_entries-put_entries :
    (est : ℕ) (xs : List OffsetPair) (rest : List ℕ)
    → Rises (λ x. x.uncompressed_offset) none xs
    → Rises (λ x. x.compressed_offset) none xs
    → load_entries est (length xs) (put_entries est xs ++ rest)
      ≡ loaded (map (λ x. x.uncompressed_offset) xs, map (λ x. x.compressed_offset) xs, rest)
unfolding load_entries put_entries
load_entries-put_entries est xs rest h k =
    let coded = put_compressed (half64 est) none xs in
    let compressed = load_compressed-put_compressed (half64 est) none xs rest k in
    elim (Bool-cases (has_uncompressed est none xs)) [
      | inl a ↦
          rw
            (
              a,
              append_assoc (put_uncompressed est none xs) coded rest,
              load_uncompressed-put_uncompressed est none xs (coded ++ rest) h,
              compressed,
            )
            refl
      | inr a ↦ rw (a, load_uncompressed-regular est none xs (coded ++ rest) h a, compressed) refl
    ]
