-- ===== src/Decode/Machine.antt =====
-- The variables of minLZDecodeGo, and the loads, stores and copies on its two slices.
-- All sums stay far below the width of an `int`; a test such as `length > len(dst)-d` is written
-- `d + length > len(dst)`, since a difference on ℕ stops at 0.
use minlz.Prelude.{ℕ, zero, suc, ◌+◌, ◌-◌, ◌/◌, ◌^◌, List, [], ◌∷◌, ◌++◌, none, some}
use minlz.Prelude.{length, get_elem?, set, take, drop, ltb, leb, ◌||◌, if◌then◌else◌}
use minlz.Bytes.{le16, le32, u8}

-- `corrupt` is the return of decodeErrCodeCorrupt, `panic` an index out of range, and `stuck` no
-- Go value: the model's loop ran out of fuel.
pub data Outcome {ℓ} (A : Type ℓ) : Type ℓ where
  next : A → Outcome A
  corrupt panic stuck : Outcome A

infixl 5 ◌>>=◌
abbrev pub ◌>>=◌ {ℓ κ} : {A : Type ℓ} {B : Type κ} → Outcome A → (A → Outcome B) → Outcome B
next a >>= f = f a
corrupt >>= f = corrupt
panic >>= f = panic
stuck >>= f = stuck

-- `d` and `s` are the positions in `dst` and `src`.
pub record Regs : Type 0 where
  pub dst : List ℕ
  pub d : ℕ
  pub s : ℕ
  pub offset : ℕ

-- b[i]
abbrev pub load8 : List ℕ → ℕ → Outcome ℕ
load8 b i = elim (get_elem? b i) [ none ↦ panic | some x ↦ next x ]

-- load16 of unsafe_disabled.go
unfoldable pub load16 : List ℕ → ℕ → Outcome ℕ
unfolding le16
load16 b i = do x ← load8 b i; y ← load8 b (i + 1); next (le16 x y)

-- load32 of unsafe_disabled.go
unfoldable pub load32 : List ℕ → ℕ → Outcome ℕ
unfolding le32
load32 b i = do
  x ← load8 b i
  y ← load8 b (i + 1)
  z ← load8 b (i + 2)
  w ← load8 b (i + 3)
  next (le32 x y z w)

-- `copy(dst[d:], xs)`, for xs that fit.
unfoldable pub splice : (dst : List ℕ) (d : ℕ) (xs : List ℕ) → List ℕ
splice dst d xs = take d dst ++ (xs ++ drop (d + length xs) dst)

-- store32 of unsafe_disabled.go
unfoldable pub store32 : (dst : List ℕ) (d v : ℕ) → Outcome (List ℕ)
unfolding splice
store32 dst d v =
    if ltb (length dst) (d + 4)
    then panic
    else next (splice dst d (u8 v ∷ u8 (v / 2 ^ 8) ∷ u8 (v / 2 ^ 16) ∷ u8 (v / 2 ^ 24) ∷ []))

-- `copy(dst[d:], src[s:s+n])`
unfoldable pub copy_from : (dst : List ℕ) (d : ℕ) (src : List ℕ) (s n : ℕ) → Outcome (List ℕ)
unfolding splice
copy_from dst d src s n =
    if ltb (length src) (s + n) || ltb (length dst) (d + n)
    then panic
    else next (splice dst d (take n (drop s src)))

-- `for i := range a { a[i] = b[i] }`, with the rounds left first: `a` starts at `d` and `b` at
-- `p`, both in `dst`.
unfoldable pub forward_copy : (rounds d p : ℕ) → List ℕ → Outcome (List ℕ)
forward_copy zero d p dst = next dst
forward_copy (suc n) d p dst = elim (get_elem? dst p) [
  | none ↦ panic
  | some b ↦ forward_copy n (d + 1) (p + 1) (set dst d b)
]

-- docopy: the copy of `len` bytes from `r.offset` behind.
unfoldable pub do_copy : Regs → (len : ℕ) → Outcome Regs
unfolding copy_from forward_copy
do_copy r len = if ltb r.d r.offset || ltb (length r.dst) (r.d + len) then corrupt else (do
  dst ←
      if ltb len r.offset
      then copy_from r.dst r.d r.dst (r.d - r.offset) len
      else forward_copy len r.d (r.d - r.offset) r.dst
  next (record r { dst = dst; d = r.d + len }))

-- doCopy2, which also tests `offset <= 0`.
unfoldable pub do_copy2 : Regs → (len : ℕ) → Outcome Regs
unfolding do_copy
do_copy2 r len = if leb r.offset 0 then corrupt else do_copy r len

-- The literals of a tag 0, in either loop.
unfoldable pub do_literals : (src : List ℕ) → Regs → (len : ℕ) → Outcome Regs
unfolding copy_from
do_literals src r len =
    if ltb (length r.dst) (r.d + len) || ltb (length src) (r.s + len) then corrupt else (do
      dst ← copy_from r.dst r.d src r.s len
      next (record r { dst = dst; d = r.d + len; s = r.s + len }))

-- What the switch on a tag leaves to do, with the position behind the tag's bytes.
pub data Parsed : Type 0 where
  literals : (len s : ℕ) → Parsed
  copy : (extra offset len s : ℕ) → Parsed
