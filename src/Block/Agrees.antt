-- ===== src/Block/Agrees.antt =====
-- Decode (decode.go) against DecodeBlock of internal/reference, from the first byte on.
use minlz.Prelude.{ℕ, ◌-◌, ◌≤◌, ◌≡◌, ◌⊎◌, refl, ◌∙◌, arith}
use minlz.Prelude.{List, All, Option, none, some, length, drop}
use minlz.Prelude.{ltb, ◌==◌, Bool-cases, inl, inr, true, if◌then◌else◌}
use minlz.Prelude.Slices.{All-drop}
use minlz.Bytes.{IsByte}
use minlz.Reference.Reader.{ok}
use minlz.Reference.Decoder.{max_block_size}
use minlz.Reference.Header.{read_size}
use minlz.Block.Header.{
  BlockError, err_corrupt, err_too_large, uvarint, decoded_len, refuse, inspect_sized,
  inspect_minlz,
}
use minlz.Block.Sizes.{uvarint-read_size}

-- What isMinLZ finds behind the zero byte, where it goes on to the size's test: DecodeBlock reads
-- the same size.
pub record IsSized (src : List ℕ) : Type 0 where
  pub size : ℕ
  pub rest : List ℕ
  pub inspected : inspect_minlz src ≡ inspect_sized size rest
  pub read : read_size 0 0 src ≡ ok (size, rest)
  pub fits : size ≤ 0xffffffff
  pub more : 1 ≤ length rest
  pub bytes : All IsByte rest

inspect_minlz-none :
    (src : List ℕ) → uvarint 0 0 src ≡ none → inspect_minlz src ≡ refuse err_corrupt
unfolding inspect_minlz decoded_len
inspect_minlz-none src e = rw (inspect_minlz, decoded_len, e)

pub inspect_minlz-some :
    (src : List ℕ) (v n : ℕ)
    → uvarint 0 0 src ≡ some (v, n)
    → inspect_minlz src
      ≡ (if ltb 0xffffffff v then refuse err_corrupt else inspect_sized v (drop n src))
unfolding inspect_minlz decoded_len
inspect_minlz-some src v n e = elim (Bool-cases (ltb 0xffffffff v)) [
  | inl a ↦ rw (inspect_minlz, decoded_len, e, a)
  | inr a ↦ rw (inspect_minlz, decoded_len, e, a)
]

inspect_sized_refuses :
    (v : ℕ) (src : List ℕ)
    → (ltb max_block_size v ≡ true) ⊎ (length src ≡ 0)
    → (e : BlockError) × (inspect_sized v src ≡ refuse e)
unfolding inspect_sized
inspect_sized_refuses v src (inl a) = (err_too_large, rw a)
inspect_sized_refuses v src (inr a) = elim (Bool-cases (ltb max_block_size v)) [
  | inl b ↦ (err_too_large, rw b)
  | inr b ↦ (err_corrupt, rw (b, a))
]

pub inspect_minlz-cases :
    (src : List ℕ)
    → All IsByte src
    → IsSized src ⊎ ((e : BlockError) × (inspect_minlz src ≡ refuse e))
inspect_minlz-cases src bytes = cases (uvarint 0 0 src) refl
  where
    cases :
        (o : Option (ℕ × ℕ))
        → uvarint 0 0 src ≡ o
        → IsSized src ⊎ ((e : BlockError) × (inspect_minlz src ≡ refuse e))
    cases none e = inr (err_corrupt, inspect_minlz-none src e)
    cases (some (v, n)) e =
        let found = inspect_minlz-some src v n e in
        elim (Bool-cases (ltb 0xffffffff v)) [
          | inl a ↦ inr (err_corrupt, rw a at found)
          | inr a ↦
              let sized : inspect_minlz src ≡ inspect_sized v (drop n src) = rw a at found in
              elim (Bool-cases (ltb max_block_size v)) [
                | inl b ↦
                    let (x, refused) = inspect_sized_refuses v (drop n src) (inl b) in
                    inr (x, sized ∙ refused)
                | inr b ↦ elim (Bool-cases (length (drop n src) == 0)) [
                  | inl c ↦
                      let (x, refused) =
                        inspect_sized_refuses v (drop n src) (inr (ground arith)) in
                      inr (x, sized ∙ refused)
                  | inr c ↦
                      let start : n - 0 ≡ n = omega arith in
                      inl (record {
                        size = v;
                        rest = drop n src;
                        inspected = sized;
                        read = rw start at (uvarint-read_size src 0 0 v n bytes e (ground arith));
                        fits = ground arith;
                        more = ground arith;
                        bytes = All-drop IsByte n src bytes;
                      })
                ]
              ]
        ]
