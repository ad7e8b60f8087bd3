-- ===== src/Block/Sized.antt =====
-- Decode (decode.go) against DecodeBlock of internal/reference, behind the size of a block.
use minlz.Prelude.{ℕ, ◌≤◌, ◌^◌, ◌≡◌, refl, arith, List, [], All}
use minlz.Prelude.{none, some, length, length-take, length-replicate}
use minlz.Prelude.{ltb, leb, ◌==◌, Bool-cases, inl, inr, true, false}
use minlz.Bytes.{IsByte}
use minlz.Reference.Reader.{Result, ok, err}
use minlz.Reference.Reader
use minlz.Reference.Decoder.{max_block_size, decode_body}
use minlz.Reference.Header.{decode_sized}
use minlz.Decode.Machine.{Outcome, next, corrupt}
use minlz.Decode.Machine
use minlz.Decode.Fast.{min_lz_decode}
use minlz.Decode.Refine.Whole.{SameBlock, min_lz_decode-decode_body}
use minlz.Block.Header.{Inspected, inspect_sized}
use minlz.Block.Decode.{S2, Answer, value, fail, target, decoded, decode_inspected}

-- The same bytes, or an error on both sides.
abbrev pub SameAnswer : Answer (List ℕ) → Result (List ℕ) → Type 0
SameAnswer (value xs) (ok ys) = xs ≡ ys
SameAnswer (fail e left) (err e') = Unit {0}
SameAnswer _ _ = ⊥

-- The rest of `decode`, behind isMinLZ.
abbrev pub settle : S2 → (dst : List ℕ) → Inspected → Answer (List ℕ)
settle s2 dst i = elim i.error [ none ↦ decode_inspected s2 dst i | some e ↦ fail e [] ]

pub length-target : (dst : List ℕ) (n : ℕ) → length (target dst n) ≡ n
length-target dst n = elim (Bool-cases (leb n (length dst))) [
  | inl a ↦ rw a (ground (arith, length-take n dst))
  | inr a ↦ rw a (length-replicate n 0)
]

SameBlock-SameAnswer :
    (left : List ℕ) (m : Outcome (List ℕ)) (m' : Result (List ℕ))
    → SameBlock m m'
    → SameAnswer (decoded left m) m'
SameBlock-SameAnswer left (next xs) (ok ys) h = h
SameBlock-SameAnswer left corrupt (err e) h = tt
SameBlock-SameAnswer left (next xs) (err e) h = elim h [ ]
SameBlock-SameAnswer left (next xs) Reader.panic h = elim h [ ]
SameBlock-SameAnswer left (next xs) Reader.stuck h = elim h [ ]
SameBlock-SameAnswer left corrupt (ok xs) h = elim h [ ]
SameBlock-SameAnswer left corrupt Reader.panic h = elim h [ ]
SameBlock-SameAnswer left corrupt Reader.stuck h = elim h [ ]
SameBlock-SameAnswer left Machine.panic m' h = elim h [ ]
SameBlock-SameAnswer left Machine.stuck m' h = elim h [ ]

pub target-SameBlock :
    (dst src : List ℕ) (n : ℕ)
    → n ≤ max_block_size
    → length src ≤ n
    → All IsByte src
    → SameBlock (min_lz_decode (target dst n) src) (decode_body n src)
target-SameBlock dst src n p q bytes =
    let e = length-target dst n in
    rw e at (min_lz_decode-decode_body (target dst n) src (rw e p) (rw e q) bytes)

-- A size of no more than 32 bits and the bytes behind it.
pub inspect_sized-SameAnswer :
    (s2 : S2) (dst src : List ℕ) (n : ℕ)
    → n ≤ 0xffffffff
    → 1 ≤ length src
    → All IsByte src
    → SameAnswer (settle s2 dst (inspect_sized n src)) (decode_sized n src)
unfolding inspect_sized decode_sized decode_inspected
inspect_sized-SameAnswer s2 dst src n h k bytes =
    let positive : leb (2 ^ 63) n ≡ false = ground arith in
    let small : ltb n (2 ^ 63) ≡ true = ground arith in
    let more : (length src == 0) ≡ false = ground arith in
    elim (Bool-cases (ltb max_block_size n)) [
      | inl a ↦ rw (positive, small, a) tt
      | inr a ↦ elim (Bool-cases (n == 0)) [
        | inl b ↦ rw (positive, a, more, b) refl
        | inr b ↦ elim (Bool-cases (ltb n (length src))) [
          | inl c ↦ rw (positive, a, more, b, c) tt
          | inr c ↦
              rw (positive, a, more, b, c)
                (SameBlock-SameAnswer _ _ (decode_body n src)
                  (target-SameBlock dst src n (ground arith) (ground arith) bytes))
        ]
      ]
    ]
