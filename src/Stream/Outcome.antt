-- ===== src/Stream/Outcome.antt =====
-- How ReadStream (internal/reference/stream.go) ends on any bytes.
use mathlib.Core.Path.{subst}
use minlz.Prelude.{ℕ, zero, suc, ◌/◌, ◌^◌, ◌<◌, ◌≤◌, ◌≡◌, refl, sym, ap, arith}
use minlz.Prelude.{List, [], ◌∷◌, ◌++◌, All, length, take, drop, length-drop, length-take, leb}
use minlz.Prelude.{append_assoc, append-nil, ◌∙◌, Bool-cases, inl, inr, leb→le}
use minlz.Bytes.{IsByte, u8, put24, le24, le24_lem}
use minlz.Stream.Result.{Read, ◌>>=◌}
use minlz.Stream.Read.{State, initial, read_chunk, read_loop, read_stream}
use minlz.Stream.Frames.{Chunk, serialize, read_loop-chunk}
use minlz.Stream.Ends.{Ends, Ends-bind, Ends-weaken}
use minlz.Stream.Inert.{IsInert, IsFatal, read_chunk-Ends}

put24-le24 :
    (x y z : ℕ)
    → IsByte x
    → IsByte y
    → IsByte z
    → (u8 (le24 x y z) ≡ x) × (u8 (le24 x y z / 2 ^ 8) ≡ y) × (u8 (le24 x y z / 2 ^ 16) ≡ z)
put24-le24 x y z p q r =
    let e = le24_lem x y z p q in (omega (arith, e), omega (arith, e), omega (arith, e))

take-drop : (n : ℕ) (xs : List ℕ) → take n xs ++ drop n xs ≡ xs
take-drop zero xs = refl
take-drop (suc n) [] = refl
take-drop (suc n) (x ∷ xs) = ap (λ ys. x ∷ ys) (take-drop n xs)

All-drop : (n : ℕ) (xs : List ℕ) → All IsByte xs → All IsByte (drop n xs)
All-drop zero xs h = h
All-drop (suc n) [] h = tt
All-drop (suc n) (x ∷ xs) h = All-drop n xs h.1

-- The bytes are inert chunks.
abbrev pub IsIdle : List ℕ → Type 0
IsIdle b = (cs : List Chunk) × (b ≡ serialize cs) × All IsInert cs

-- The bytes are inert chunks, a fatal one, and more.
abbrev pub IsBroken : List ℕ → Type 0
IsBroken b =
    (cs : List Chunk) × (c : Chunk) × (rest : List ℕ) × (b
      ≡ serialize cs ++ (serialize (c ∷ []) ++ rest))
    × All IsInert cs
    × IsFatal c

-- One chunk in front of what follows.
abbrev front : Chunk → List ℕ → List ℕ
front c rest = c.kind ∷ (put24 (length c.body) ++ (c.body ++ rest))

IsIdle-cons : (c : Chunk) (rest : List ℕ) → IsInert c → IsIdle rest → IsIdle (front c rest)
IsIdle-cons c rest h (cs, e, all) = (c ∷ cs, ap (front c) e, (h, all))

IsBroken-here : (c : Chunk) (rest : List ℕ) → IsFatal c → IsBroken (front c rest)
IsBroken-here c rest h = ([], c, rest, simp append-nil, tt, h)

IsBroken-cons : (c : Chunk) (rest : List ℕ) → IsInert c → IsBroken rest → IsBroken (front c rest)
IsBroken-cons c rest h (cs, f, tail, e, all, fatal) = (
  c ∷ cs,
  f,
  tail,
  ap (front c) e
      ∙ ap (λ ys. c.kind ∷ (put24 (length c.body) ++ ys))
          (sym (append_assoc c.body (serialize cs) (serialize (f ∷ []) ++ tail))),
  (h, all),
  fatal,
)

front-split :
    (kind x y z : ℕ) (b : List ℕ)
    → All IsByte (x ∷ y ∷ z ∷ b)
    → le24 x y z ≤ length b
    → front (record { kind = kind; body = take (le24 x y z) b }) (drop (le24 x y z) b)
      ≡ kind ∷ x ∷ y ∷ z ∷ b
front-split kind x y z b (p, (q, (r, bytes))) h =
    let size : length (take (le24 x y z) b) ≡ le24 x y z =
      omega (arith, length-take (le24 x y z) b) in
    let (first, second, third) = put24-le24 x y z p q r in
    rw (size, first, second, third, take-drop (le24 x y z) b) refl

module _ (crc : List ℕ → ℕ) where
  -- A chunk, and the loop on what follows it.
  chunk-Ends :
      (c : Chunk) (rest : List ℕ) (more : State → Read State)
      → Ends (λ st. (st ≡ initial) × IsIdle rest) (IsBroken rest) (more initial)
      → Ends
          (λ st. (st ≡ initial) × IsIdle (front c rest))
          (IsBroken (front c rest))
          (read_chunk crc initial c.kind c.body >>= more)
  chunk-Ends c rest more h =
      let P = λ (st : State). (st ≡ initial) × IsIdle (front c rest) in
      let Q = IsBroken (front c rest) in
      let R = λ (st : State). (st ≡ initial) × IsInert c in
      Ends-bind R P Q (read_chunk crc initial c.kind c.body) more
        (Ends-weaken R Q R (IsFatal c) _ (read_chunk-Ends crc c) (λ st k. k) (IsBroken-here c rest))
        λ st k.
          subst (λ (st' : State). Ends P Q (more st')) (sym k.0)
            (Ends-weaken P Q (λ st. (st ≡ initial) × IsIdle rest) (IsBroken rest) _ h
              (λ st' l. (l.0, IsIdle-cons c rest k.1 l.1)) (IsBroken-cons c rest k.1))

  read_loop-Ends :
      (n : ℕ) (b : List ℕ)
      → All IsByte b
      → length b < n
      → Ends (λ st. (st ≡ initial) × IsIdle b) (IsBroken b) (read_loop n crc initial b)
  read_loop-Ends zero b h p = absurd (omega arith)
  read_loop-Ends (suc n) [] h p = unfold read_loop in (refl, ([], refl, tt))
  read_loop-Ends (suc n) (kind ∷ []) h p = unfold read_loop in tt
  read_loop-Ends (suc n) (kind ∷ x ∷ []) h p = unfold read_loop in tt
  read_loop-Ends (suc n) (kind ∷ x ∷ y ∷ []) h p = unfold read_loop in tt
  read_loop-Ends (suc n) (kind ∷ x ∷ y ∷ z ∷ b) h p =
      elim (Bool-cases (leb (le24 x y z) (length b))) [
        | inr e ↦ unfold read_loop in rw e tt
        | inl e ↦
            let c : Chunk = record { kind = kind; body = take (le24 x y z) b } in
            let rest = drop (le24 x y z) b in
            let fits = leb→le _ _ e in
            subst
              (λ (w : List ℕ).
                Ends (λ st. (st ≡ initial) × IsIdle w) (IsBroken w)
                  (read_loop (suc n) crc initial (kind ∷ x ∷ y ∷ z ∷ b)))
              (front-split kind x y z b h.1 fits)
              (rw (read_loop-chunk n crc initial kind x y z (le24 x y z) b refl fits) (
                chunk-Ends c rest (λ st'. read_loop n crc st' rest)
                  (read_loop-Ends n rest (All-drop _ b h.1.1.1.1)
                    (omega (arith, p, length-drop (le24 x y z) b)))))
      ]

-- On all bytes and for every checksum, ReadStream ends. It returns nil only where the bytes are a
-- sequence of inert chunks: none is a stream identifier, a MinLZ block or of an unknown type below
-- 64, no chunk of uncompressed data has a byte, and a chunk that ends a stream announces the size 0
-- if any. It panics only where behind such chunks a stream identifier of four bytes or an index of
-- less than six follows.
pub read_stream-Ends :
    (crc : List ℕ → ℕ) (b : List ℕ)
    → All IsByte b
    → Ends (λ st. IsIdle b) (IsBroken b) (read_stream crc b)
unfolding read_stream
read_stream-Ends crc b h =
    Ends-weaken (λ st. IsIdle b) (IsBroken b) _ (IsBroken b) _
      (read_loop-Ends crc (suc (length b)) b h (omega arith)) (λ st k. k.1) (λ k. k)
