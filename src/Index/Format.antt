-- ===== src/Index/Format.antt =====
-- The binary form of an index: appendTo and Load of index.go. An int64 is kept as its pattern of
-- 64 bits. The index that Load leaves behind with an error is not modelled.
use minlz.Prelude.{ℕ, zero, suc, ◌+◌, ◌-◌, ◌/◌, ◌%◌, ◌^◌, List, [], ◌∷◌, ◌++◌, Option, none, some}
use minlz.Prelude.{Bool, true, false, ◌||◌, drop, ltb, leb, ◌==◌, if◌then◌else◌}
use minlz.Index.State.{OffsetPair}
use minlz.Index.Varint.{append_varint, varint}

-- int64: `a + b`, `a - b`, `x / 2`, `a <= b` and `x < 0`.
unfoldable pub add64 : ℕ → ℕ → ℕ
add64 a b = (a + b) % 2 ^ 64

unfoldable pub sub64 : ℕ → ℕ → ℕ
sub64 a b = (a + (2 ^ 64 - b)) % 2 ^ 64

unfoldable pub half64 : ℕ → ℕ
half64 x = if ltb x (2 ^ 63) then x / 2 else (2 ^ 64 - (2 ^ 64 - x) / 2) % 2 ^ 64

unfoldable pub le64 : ℕ → ℕ → Bool
le64 a b = leb ((a + 2 ^ 63) % 2 ^ 64) ((b + 2 ^ 63) % 2 ^ 64)

abbrev pub negative64 : ℕ → Bool
negative64 x = leb (2 ^ 63) x

abbrev pub index_header : List ℕ
index_header = 115 ∷ 50 ∷ 105 ∷ 100 ∷ 120 ∷ 0 ∷ []

abbrev pub index_trailer : List ℕ
index_trailer = 0 ∷ 120 ∷ 100 ∷ 105 ∷ 50 ∷ 115 ∷ []

-- An offset less what the one before it lets expect; the first one has none before it.
unfoldable pub delta : (step : ℕ) → Option ℕ → ℕ → ℕ
unfolding add64 sub64
delta step none x = x
delta step (some prev) x = sub64 x (add64 prev step)

-- The step that is expected of the next compressed offset.
unfoldable pub predict : (step : ℕ) → Option ℕ → (error : ℕ) → ℕ
unfolding add64 half64
predict step none error = step
predict step (some prev) error = add64 step (half64 error)

-- `hasUncompressed`
unfoldable pub has_uncompressed : (est : ℕ) → Option ℕ → List OffsetPair → Bool
unfolding add64
has_uncompressed est prev [] = false
has_uncompressed est none (x ∷ xs) =
    let more = has_uncompressed est (some x.uncompressed_offset) xs in
    if x.uncompressed_offset == 0 then more else true
has_uncompressed est (some prev) (x ∷ xs) =
    let more = has_uncompressed est (some x.uncompressed_offset) xs in
    if x.uncompressed_offset == add64 prev est then more else true

unfoldable pub put_uncompressed : (est : ℕ) → Option ℕ → List OffsetPair → List ℕ
unfolding delta append_varint
put_uncompressed est prev [] = []
put_uncompressed est prev (x ∷ xs) =
    append_varint [] (delta est prev x.uncompressed_offset)
    ++ put_uncompressed est (some x.uncompressed_offset) xs

unfoldable pub put_compressed : (step : ℕ) → Option ℕ → List OffsetPair → List ℕ
unfolding delta predict append_varint
put_compressed step prev [] = []
put_compressed step prev (x ∷ xs) =
    let c = delta step prev x.compressed_offset in
    append_varint [] c ++ put_compressed (predict step prev c) (some x.compressed_offset) xs

-- The entries of appendTo.
unfoldable pub put_entries : (est : ℕ) → List OffsetPair → List ℕ
unfolding has_uncompressed put_uncompressed put_compressed half64
put_entries est xs =
    (if has_uncompressed est none xs then 1 ∷ put_uncompressed est none xs else 0 ∷ [])
    ++ put_compressed (half64 est) none xs

-- The results of Load.
pub data Loaded {ℓ} (A : Type ℓ) : Type ℓ where
  loaded : A → Loaded A
  corrupt unexpected_eof unsupported : Loaded A

infixl 5 ◌>>=◌
abbrev pub ◌>>=◌ {ℓ κ} : {A : Type ℓ} {B : Type κ} → Loaded A → (A → Loaded B) → Loaded B
loaded a >>= f = f a
corrupt >>= f = corrupt
unexpected_eof >>= f = unexpected_eof
unsupported >>= f = unsupported

unfoldable pub load_number : List ℕ → Loaded (ℕ × List ℕ)
unfolding varint
load_number b = elim (varint b) [ none ↦ corrupt | some (v, n) ↦ loaded (v, drop n b) ]

unfoldable pub undelta : (step : ℕ) → Option ℕ → ℕ → ℕ
unfolding add64
undelta step none d = d
undelta step (some prev) d = add64 d (add64 prev step)

-- `uOff <= prev` for an entry with one before it, and `uOff < 0`.
unfoldable pub refused : Option ℕ → ℕ → Bool
unfolding le64
refused none x = negative64 x
refused (some prev) x = le64 x prev || negative64 x

-- The two loops of Load, for the entries that are left.
unfoldable pub load_uncompressed :
    (est : ℕ) (has : Bool) (prev : Option ℕ) (left : ℕ) → List ℕ → Loaded (List ℕ × List ℕ)
unfolding load_number undelta refused
load_uncompressed est has prev zero b = loaded ([], b)
load_uncompressed est has prev (suc n) b = (if has then load_number b else loaded (0, b)) >>= λ r.
    let u = undelta est prev r.0 in
    let more = load_uncompressed est has (some u) n r.1 in
    if refused prev u then corrupt else more >>= λ s. loaded (u ∷ s.0, s.1)

unfoldable pub load_compressed :
    (step : ℕ) (prev : Option ℕ) (left : ℕ) → List ℕ → Loaded (List ℕ × List ℕ)
unfolding load_number undelta refused predict
load_compressed step prev zero b = loaded ([], b)
load_compressed step prev (suc n) b = load_number b >>= λ r.
    let c = undelta step prev r.0 in
    let more = load_compressed (predict step prev r.0) (some c) n r.1 in
    if refused prev c then corrupt else more >>= λ s. loaded (c ∷ s.0, s.1)

-- The entries of Load, from the byte `hasUncompressed` on: the uncompressed offsets, the compressed
-- ones, and what follows.
unfoldable pub load_entries : (est left : ℕ) → List ℕ → Loaded (List ℕ × List ℕ × List ℕ)
unfolding load_uncompressed load_compressed half64
load_entries est n [] = unexpected_eof
load_entries est n (flag ∷ b) =
    if ltb 1 flag
    then corrupt
    else (load_uncompressed est (flag == 1) none n b >>= λ u.
        load_compressed (half64 est) none n u.1 >>= λ c. loaded (u.0, c.0, c.1))
