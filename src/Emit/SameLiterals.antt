-- ===== src/Emit/SameLiterals.antt =====
-- The emissions that also copy literals to the buffer, against those of internal/reference.
use minlz.Prelude.{
  ℕ, ◌+◌, ◌-◌, ◌*◌, ◌/◌, ◌^◌, ◌≤◌, ◌<◌, ◌≡◌, ◌∙◌, sym, ap, refl, arith, bit_or, min,
}
use minlz.Prelude.{
  List, [], ◌∷◌, ◌++◌, append_assoc, length, length-append, length-drop, take, drop, take-length,
  take-append, drop-append,
}
use minlz.Prelude.{true, false, ltb, leb, ◌==◌, Bool-cases, inl, inr, le→ltb}
use minlz.Prelude.Bits.{bit_or-zero, zero-bit_or}
use minlz.Prelude.Slices.{drop-drop}
use minlz.Bytes.{u8}
use minlz.Reference.Emit
use minlz.Decode.Machine.{next, splice, ◌>>=◌}
use minlz.Emit.Buffer.{store8, copy_into}
use minlz.Emit.Write.{emit_literal, emit_literal_size_n}
use minlz.Reference.Codes.Literal.{length_code, emit_literals-length_code}
use minlz.Emit.Same.{wrote}

-- A copy behind what is already written, into a buffer with room for it.
copy_into_lem :
    (code rest xs : List ℕ)
    → length xs ≤ length rest
    → copy_into (code ++ rest) (length code) xs
      ≡ next (code ++ (xs ++ drop (length xs) rest), length code + length xs)
unfolding copy_into splice
copy_into_lem code rest xs h =
    let size = length-append code rest in
    let room : min (length (code ++ rest) - length code) (length xs) ≡ length xs =
      omega (arith, size) in
    let all : take (length xs) xs ≡ xs = take-length (length xs) xs (omega arith) in
    let behind : drop (length code + length xs) (code ++ rest) ≡ drop (length xs) rest =
      sym (drop-drop (length xs) (length code) (code ++ rest))
      ∙ ap (λ (ys : List ℕ). drop (length xs) ys) (drop-append code rest) in
    rw (
      le→ltb (length (code ++ rest)) (length code) (omega (arith, size)),
      room,
      all,
      take-append code rest,
      behind,
    )

-- The same, from the buffer `dst` before the code was written.
pub literals_behind :
    (code dst xs : List ℕ)
    → length code + length xs ≤ length dst
    → copy_into (code ++ drop (length code) dst) (length code) xs ≡ wrote (code ++ xs) dst
literals_behind code dst xs h =
    let rest = drop (length code) dst in
    let room : length xs ≤ length rest = omega (arith, length-drop (length code) dst) in
    copy_into_lem code rest xs room
    ∙ rw (length-append code xs, drop-drop (length xs) (length code) dst, append_assoc code xs) refl

module _ (a b c d : ℕ) (dst lit : List ℕ) (h : length lit ≤ length dst) where
  abbrev long : List ℕ
  long = a ∷ b ∷ c ∷ d ∷ dst

  in_range : (i : ℕ) → i < 4 → leb (length long) i ≡ false
  in_range i k = ground arith

  one_byte : (x : ℕ) → (do b ← store8 long 0 x; copy_into b 1 lit) ≡ wrote ((x ∷ []) ++ lit) long
  one_byte x = rw (in_range 0 (omega arith)) (literals_behind (x ∷ []) long lit (omega arith))

  two_bytes :
      (x y : ℕ)
      → (do b ← store8 long 1 y; b ← store8 b 0 x; copy_into b 2 lit)
        ≡ wrote ((x ∷ y ∷ []) ++ lit) long
  two_bytes x y =
      rw (in_range 1 (omega arith), in_range 0 (omega arith))
        (literals_behind (x ∷ y ∷ []) long lit (omega arith))

  three_bytes :
      (x y z : ℕ)
      → (do b ← store8 long 2 z; b ← store8 b 1 y; b ← store8 b 0 x; copy_into b 3 lit)
        ≡ wrote ((x ∷ y ∷ z ∷ []) ++ lit) long
  three_bytes x y z =
      rw (in_range 2 (omega arith), in_range 1 (omega arith), in_range 0 (omega arith))
        (literals_behind (x ∷ y ∷ z ∷ []) long lit (omega arith))

  four_bytes :
      (x y z w : ℕ)
      → (do
        b ← store8 long 3 w
        b ← store8 b 2 z
        b ← store8 b 1 y
        b ← store8 b 0 x
        copy_into b 4 lit)
        ≡ wrote ((x ∷ y ∷ z ∷ w ∷ []) ++ lit) long
  four_bytes x y z w =
      rw
        (
          in_range 3 (omega arith),
          in_range 2 (omega arith),
          in_range 1 (omega arith),
          in_range 0 (omega arith),
        )
        (literals_behind (x ∷ y ∷ z ∷ w ∷ []) long lit (omega arith))

  emit_literal-long :
      1 ≤ length lit
      → length lit < 2 ^ 24
      → emit_literal long lit ≡ wrote (Emit.emit_literals [] lit) long
  unfolding emit_literal Emit.emit_literals
  emit_literal-long p q =
      let n = length lit in
      let nonempty : (n == 0) ≡ false = ground arith in
      let m : n - 1 - 29 ≡ n - 30 = omega arith in
      rw (nonempty, m)
        (elim (Bool-cases (ltb n 30)) [
          | inl i ↦
              let j : ltb (n - 1) 29 ≡ true = ground arith in
              let tag : bit_or (u8 (u8 (n - 1) * 2 ^ 3)) 0 ≡ bit_or 0 (u8 (u8 (n - 1) * 2 ^ 3)) =
                bit_or-zero _ ∙ sym (zero-bit_or _) in
              rw (i, j, tag) (one_byte (bit_or 0 (u8 (u8 (n - 1) * 2 ^ 3))))
          | inr i ↦
              let j : ltb (n - 1) 29 ≡ false = ground arith in
              rw (i, j)
                (elim (Bool-cases (ltb (n - 30) 256)) [
                  | inl k ↦
                      let l : ltb (n - 1) (2 ^ 8 + 29) ≡ true = ground arith in
                      rw (k, l) (two_bytes 232 (u8 (n - 30)))
                  | inr k ↦
                      let l : ltb (n - 1) (2 ^ 8 + 29) ≡ false = ground arith in
                      rw (k, l)
                        (elim (Bool-cases (ltb (n - 30) 65536)) [
                          | inl t ↦
                              let r : ltb (n - 1) (2 ^ 16 + 29) ≡ true = ground arith in
                              rw (t, r) (three_bytes 240 (u8 (n - 30)) (u8 ((n - 30) / 2 ^ 8)))
                          | inr t ↦
                              let r : ltb (n - 1) (2 ^ 16 + 29) ≡ false = ground arith in
                              let u : ltb (n - 1) (2 ^ 24 + 29) ≡ true = ground arith in
                              rw (t, r, u)
                                (four_bytes 248 (u8 (n - 30)) (u8 ((n - 30) / 2 ^ 8))
                                  (u8 ((n - 30) / 2 ^ 16)))
                        ])
                ])
        ])

-- A buffer of four bytes or more.
pub four :
    (P : List ℕ → Type 0)
    → ((a b c d : ℕ) (dst : List ℕ) → P (a ∷ b ∷ c ∷ d ∷ dst))
    → (dst : List ℕ) → 4 ≤ length dst
    → P dst
four P k (a ∷ b ∷ c ∷ d ∷ dst) h = k a b c d dst
four P k [] h = absurd (omega arith)
four P k (a ∷ []) h = absurd (omega arith)
four P k (a ∷ b ∷ []) h = absurd (omega arith)
four P k (a ∷ b ∷ c ∷ []) h = absurd (omega arith)

-- emitLiteral of 1 to 2^24 - 1 literals, on a buffer with room for them and four bytes more, does
-- not panic: it writes to the start of the buffer the bytes that emitLiterals of
-- internal/reference appends, leaves the rest of the buffer as it was, and returns the number of
-- those bytes.
pub emit_literal-emit_literals :
    (dst lit : List ℕ)
    → length lit + 4 ≤ length dst
    → 1 ≤ length lit
    → length lit < 2 ^ 24
    → emit_literal dst lit ≡ wrote (Emit.emit_literals [] lit) dst
emit_literal-emit_literals dst lit h p q =
    four
      (λ out.
        length lit + 4 ≤ length out → emit_literal out lit ≡ wrote (Emit.emit_literals [] lit) out)
      (λ a b c d out k. emit_literal-long a b c d out lit (omega arith) p q) dst (omega arith) h

literals_size :
    (lit : List ℕ)
    → 1 ≤ length lit
    → (length (Emit.emit_literals [] lit) ≤ length lit + emit_literal_size_n (length lit))
      × (length lit + emit_literal_size_n (length lit) ≤ length (Emit.emit_literals [] lit) + 1)
unfolding emit_literal_size_n length_code
literals_size lit p =
    rw (emit_literals-length_code [] lit p, length-append (length_code 0 (length lit)) lit)
      (size (length lit) p)
  where
    size :
        (n : ℕ)
        → 1 ≤ n
        → (length (length_code 0 n) + n ≤ n + emit_literal_size_n n)
          × (n + emit_literal_size_n n ≤ length (length_code 0 n) + n + 1)
    size n p = ground arith

-- For 1 to 2^24 - 1 literals and a buffer with room for them and four bytes more, the overhead that
-- emitLiteralSizeN announces is enough for what emitLiteral writes, and one byte too much at most.
pub emit_literal_size_n_lem :
    (dst lit : List ℕ)
    → length lit + 4 ≤ length dst
    → 1 ≤ length lit
    → length lit < 2 ^ 24
    → (out : List ℕ) × (n : ℕ) × (emit_literal dst lit ≡ next (out, n))
      × (n ≤ length lit + emit_literal_size_n (length lit))
      × (length lit + emit_literal_size_n (length lit) ≤ n + 1)
emit_literal_size_n_lem dst lit h p q =
    let code = Emit.emit_literals [] lit in
    (
      code ++ drop (length code) dst,
      length code,
      emit_literal-emit_literals dst lit h p q,
      (literals_size lit p).0,
      (literals_size lit p).1,
    )
