-- ===== src/Block/Keeps.antt =====
-- Decode against DecodedLen (decode.go), its results for two destinations, and AppendDecoded.
use minlz.Prelude.{ℕ, ◌≤◌, ◌≡◌, refl, sym, ◌∙◌, ap, arith}
use minlz.Prelude.{
  List, [], ◌∷◌, ◌++◌, All, Option, none, some, length, replicate, length-replicate, take, drop,
  take-length,
}
use minlz.Prelude.Slices.{take-append_le}
use minlz.Prelude.{ltb, leb, ◌==◌, ==_iff, Bool-cases, inl, inr, true, false, if◌then◌else◌}
use minlz.Bytes.{IsByte}
use minlz.Reference.Reader.{Result, ok, err}
use minlz.Reference.Reader
use minlz.Reference.Decoder.{max_block_size, decode_body}
use minlz.Reference.Reads.{Ensures}
use minlz.Reference.Run.{decode_body_total}
use minlz.Decode.Machine.{Outcome, next, corrupt}
use minlz.Decode.Machine
use minlz.Decode.Fast.{min_lz_decode}
use minlz.Decode.Left.{min_lz_left}
use minlz.Decode.LeftLength.{length-min_lz_left}
use minlz.Decode.Refine.Whole.{SameBlock}
use minlz.Block.Header.{BlockError, Inspected, inspect_sized, inspect_minlz, is_minlz}
use minlz.Block.Decode.{S2, Answer, value, fail, panics, target, decoded, backing}
use minlz.Block.Decode.{decode_inspected, decode, decoded_size, append_decoded}
use minlz.Block.Decode
use minlz.Block.Sized.{settle, target-SameBlock, length-target}
use minlz.Block.Agrees.{inspect_minlz-cases}
use minlz.Block.Whole.{decode-settle}

-- What DecodedLen promises of Decode: its error, or so many bytes, without an error or beside one.
pub Keeps : (ℕ × Option BlockError) → Answer (List ℕ) → Type 0
Keeps (n, some e) a = a ≡ fail e []
Keeps (n, none) (value xs) = length xs ≡ n
Keeps (n, none) (fail e left) = length left ≡ n
Keeps (n, none) _ = ⊥

abbrev pub sizes : Inspected → ℕ × Option BlockError
sizes i = (i.size, i.error)

SameBlock-Keeps :
    (n : ℕ) (left : List ℕ) (m : Outcome (List ℕ)) (m' : Result (List ℕ))
    → length left ≡ n
    → SameBlock m m'
    → Ensures (λ out. length out ≡ n) m'
    → Keeps (n, none) (decoded left m)
unfolding Keeps
SameBlock-Keeps n left (next xs) (ok ys) l h k = ap (λ (zs : List ℕ). length zs) h ∙ k
SameBlock-Keeps n left corrupt (err e) l h k = l
SameBlock-Keeps n left (next xs) (err e) l h k = elim h [ ]
SameBlock-Keeps n left (next xs) Reader.panic l h k = elim h [ ]
SameBlock-Keeps n left (next xs) Reader.stuck l h k = elim h [ ]
SameBlock-Keeps n left corrupt (ok xs) l h k = elim h [ ]
SameBlock-Keeps n left corrupt Reader.panic l h k = elim h [ ]
SameBlock-Keeps n left corrupt Reader.stuck l h k = elim h [ ]
SameBlock-Keeps n left Machine.panic m' l h k = elim h [ ]
SameBlock-Keeps n left Machine.stuck m' l h k = elim h [ ]

SameBlock-unique :
    (m m' : Outcome (List ℕ)) (r : Result (List ℕ)) → SameBlock m r → SameBlock m' r → m ≡ m'
SameBlock-unique (next xs) (next ys) (ok zs) h k = ap next (h ∙ sym k)
SameBlock-unique corrupt corrupt (err e) h k = refl
SameBlock-unique (next xs) m' (err e) h k = elim h [ ]
SameBlock-unique (next xs) m' Reader.panic h k = elim h [ ]
SameBlock-unique (next xs) m' Reader.stuck h k = elim h [ ]
SameBlock-unique (next xs) corrupt (ok zs) h k = elim k [ ]
SameBlock-unique (next xs) Machine.panic (ok zs) h k = elim k [ ]
SameBlock-unique (next xs) Machine.stuck (ok zs) h k = elim k [ ]
SameBlock-unique corrupt m' (ok xs) h k = elim h [ ]
SameBlock-unique corrupt m' Reader.panic h k = elim h [ ]
SameBlock-unique corrupt m' Reader.stuck h k = elim h [ ]
SameBlock-unique corrupt (next xs) (err e) h k = elim k [ ]
SameBlock-unique corrupt Machine.panic (err e) h k = elim k [ ]
SameBlock-unique corrupt Machine.stuck (err e) h k = elim k [ ]
SameBlock-unique Machine.panic m' r h k = elim h [ ]
SameBlock-unique Machine.stuck m' r h k = elim h [ ]

-- What is returned, but for the bytes beside an error.
abbrev pub without_left : Answer (List ℕ) → Answer (List ℕ)
without_left (value xs) = value xs
without_left (fail e left) = fail e []
without_left panics = panics
without_left Decode.stuck = Decode.stuck

without_left-decoded :
    (left left' : List ℕ) (m : Outcome (List ℕ))
    → without_left (decoded left m) ≡ without_left (decoded left' m)
without_left-decoded left left' (next xs) = refl
without_left-decoded left left' corrupt = refl
without_left-decoded left left' Machine.panic = refl
without_left-decoded left left' Machine.stuck = refl

without_left-value : (a : Answer (List ℕ)) (xs : List ℕ) → without_left a ≡ value xs → a ≡ value xs
without_left-value (value ys) xs h = h
without_left-value (fail e left) xs h = cc
without_left-value panics xs h = cc
without_left-value Decode.stuck xs h = cc

without_left-fail :
    (a : Answer (List ℕ)) (e : BlockError)
    → without_left a ≡ fail e []
    → (left : List ℕ) × (a ≡ fail e left)
without_left-fail (value ys) e h = cc
without_left-fail (fail x left) e h = let same : x ≡ e = cc in (left, rw same refl)
without_left-fail panics e h = cc
without_left-fail Decode.stuck e h = cc

module _ (s2 : S2) (src : List ℕ) (n : ℕ) (more : 1 ≤ length src) (bytes : All IsByte src) where
  -- A block that isMinLZ accepts with a size and a body.
  sized-Keeps :
      (dst : List ℕ) → Keeps (sizes (inspect_sized n src)) (settle s2 dst (inspect_sized n src))
  unfolding inspect_sized decode_inspected Keeps
  sized-Keeps dst =
      let filled : (length src == 0) ≡ false = ground arith in
      elim (Bool-cases (ltb max_block_size n)) [
        | inl a ↦ rw a refl
        | inr a ↦ elim (Bool-cases (n == 0)) [
          | inl b ↦ rw (a, filled, b) refl
          | inr b ↦ elim (Bool-cases (ltb n (length src))) [
            | inl c ↦ rw (a, filled, b, c) refl
            | inr c ↦
                rw (a, filled, b, c)
                  (SameBlock-Keeps n _ _ (decode_body n src)
                    (length-min_lz_left (target dst n) src ∙ length-target dst n)
                    (target-SameBlock dst src n (ground arith) (ground arith) bytes)
                    (decode_body_total n src))
          ]
        ]
      ]

  sized-any_dst :
      (dst dst' : List ℕ)
      → without_left (settle s2 dst (inspect_sized n src))
        ≡ without_left (settle s2 dst' (inspect_sized n src))
  unfolding inspect_sized decode_inspected
  sized-any_dst dst dst' =
      let filled : (length src == 0) ≡ false = ground arith in
      elim (Bool-cases (ltb max_block_size n)) [
        | inl a ↦ rw a refl
        | inr a ↦ elim (Bool-cases (n == 0)) [
          | inl b ↦ rw (a, filled, b) refl
          | inr b ↦ elim (Bool-cases (ltb n (length src))) [
            | inl c ↦ rw (a, filled, b, c) refl
            | inr c ↦
                let same =
                  SameBlock-unique (min_lz_decode (target dst n) src)
                    (min_lz_decode (target dst' n) src) (decode_body n src)
                    (target-SameBlock dst src n (ground arith) (ground arith) bytes)
                    (target-SameBlock dst' src n (ground arith) (ground arith) bytes) in
                rw (a, filled, b, c)
                  (without_left-decoded _ (min_lz_left (target dst' n) src) _
                    ∙ ap (λ o. without_left (decoded (min_lz_left (target dst' n) src) o)) same)
          ]
        ]
      ]

decoded_size-sizes :
    (b : ℕ) (src : List ℕ) → decoded_size (0 ∷ b ∷ src) ≡ sizes (inspect_minlz (b ∷ src))
unfolding decoded_size is_minlz
decoded_size-sizes b src = refl

-- On every MinLZ block, and for any destination, Decode neither panics nor runs without end: it
-- returns nil and the error that DecodedLen returns, or DecodedLen returns none and Decode returns so
-- many bytes, without an error or beside one.
pub decode-Keeps :
    (s2 : S2) (dst src : List ℕ)
    → All IsByte src
    → Keeps (decoded_size (0 ∷ src)) (decode s2 dst (0 ∷ src))
unfolding decoded_size is_minlz decode decode_inspected Keeps
decode-Keeps s2 dst [] bytes = refl
decode-Keeps s2 dst (b ∷ src) bytes =
    rw (decoded_size-sizes b src, decode-settle s2 dst b src)
      (elim (inspect_minlz-cases (b ∷ src) bytes) [
        | inl i ↦ rw i.inspected (sized-Keeps s2 i.rest i.size i.more i.bytes dst)
        | inr (e, refused) ↦ rw refused refl
      ])

-- The bytes and the length of the destination make no difference to what is decoded: on every MinLZ
-- block Decode returns the same bytes for any two destinations, or the same error. The bytes that
-- it returns beside an error are left out.
pub decode-any_dst :
    (s2 : S2) (dst dst' src : List ℕ)
    → All IsByte src
    → without_left (decode s2 dst (0 ∷ src)) ≡ without_left (decode s2 dst' (0 ∷ src))
unfolding decode is_minlz decode_inspected
decode-any_dst s2 dst dst' [] bytes = refl
decode-any_dst s2 dst dst' (b ∷ src) bytes =
    rw (decode-settle s2 dst b src, decode-settle s2 dst' b src)
      (elim (inspect_minlz-cases (b ∷ src) bytes) [
        | inl i ↦ rw i.inspected (sized-any_dst s2 i.rest i.size i.more i.bytes dst dst')
        | inr (e, refused) ↦ rw refused refl
      ])

-- Behind the bytes of a slice, which is what is returned beside an error.
abbrev pub behind : (dst : List ℕ) → Answer (List ℕ) → Answer (List ℕ)
behind dst (value xs) = value (dst ++ xs)
behind dst (fail e _) = fail e dst
behind dst panics = panics
behind dst Decode.stuck = Decode.stuck

take-backing :
    (xs room : List ℕ) (n : ℕ) → length xs ≡ n → n ≤ length room → take n (backing room xs) ≡ xs
take-backing xs room n e h =
    let fits : leb (length xs) (length room) ≡ true = ground arith in
    rw (fits, take-append_le n xs (drop (length xs) room) (omega arith))
      (take-length n xs (omega arith))

room_lem :
    (spare : List ℕ) (n : ℕ) → n ≤ length (if ltb (length spare) n then replicate n 0 else spare)
room_lem spare n = elim (Bool-cases (ltb (length spare) n)) [
  | inl a ↦ rw (a, length-replicate) (omega arith)
  | inr a ↦ rw a (ground arith)
]

append_decoded_lem :
    (s2 : S2) (dst spare src : List ℕ) (n : ℕ) (x : Option BlockError) (a : Answer (List ℕ))
    → (is_minlz src).size ≡ n
    → (is_minlz src).error ≡ x
    → ((to : List ℕ) → without_left (decode s2 to src) ≡ without_left a)
    → Keeps (n, x) a
    → append_decoded s2 dst spare src ≡ behind dst a
unfolding append_decoded Keeps
append_decoded_lem s2 dst spare src n (some y) a p q f k = rw (append_decoded, q, k) refl
append_decoded_lem s2 dst spare src n none (value xs) p q f k =
    let size = (is_minlz src).size in
    let room = if ltb (length spare) size then replicate size 0 else spare in
    let full : (length xs == n) ≡ true = (==_iff (length xs) n).1 k in
    rw (append_decoded, q, without_left-value (decode s2 room src) xs (f room), p, full)
      (ap (λ ys. value (dst ++ ys)) (take-backing xs _ n k (room_lem spare n)))
append_decoded_lem s2 dst spare src n none (fail e left) p q f k =
    let size = (is_minlz src).size in
    let room = if ltb (length spare) size then replicate size 0 else spare in
    rw (append_decoded, q, (without_left-fail (decode s2 room src) e (f room)).1) refl
append_decoded_lem s2 dst spare src n none panics p q f k = elim k [ ]
append_decoded_lem s2 dst spare src n none Decode.stuck p q f k = elim k [ ]

-- For every MinLZ block, with any spare capacity of `dst`, AppendDecoded returns `dst` and behind
-- it what Decode returns, or `dst` and Decode's error.
pub append_decoded-decode :
    (s2 : S2) (dst spare src : List ℕ)
    → All IsByte src
    → append_decoded s2 dst spare (0 ∷ src) ≡ behind dst (decode s2 [] (0 ∷ src))
unfolding decoded_size
append_decoded-decode s2 dst spare src bytes =
    append_decoded_lem s2 dst spare (0 ∷ src) (is_minlz (0 ∷ src)).size (is_minlz (0 ∷ src)).error
      (decode s2 [] (0 ∷ src)) refl refl (λ to. decode-any_dst s2 to [] src bytes)
      (decode-Keeps s2 [] src bytes)
