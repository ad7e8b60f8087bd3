-- ===== src/Decode/Lengths.antt =====
-- No round of minLZDecodeGo changes the length of its destination.
use minlz.Prelude.{
  ℕ, zero, suc, ◌+◌, ◌/◌, ◌^◌, ◌-◌, ◌≡◌, ◌∙◌, arith, List, [], ◌∷◌, length, get_elem?, set,
}
use minlz.Prelude.{ltb, leb, ◌==◌, ◌||◌, Bool-cases, inl, inr, Option-cases, ltb→le}
use minlz.Bytes.{u8}
use minlz.Prelude.Slices.{length-set}
use minlz.Decode.Machine.{Outcome, next, corrupt, panic, stuck, ◌>>=◌, Regs, Parsed, literals, copy}
use minlz.Decode.Machine.{load32, store32, copy_from, forward_copy, do_copy, do_copy2, do_literals}
use minlz.Decode.Checked.{checked_parse, checked_extra, checked_execute, checked_step}
use minlz.Decode.Fast.{fast_parse, fast_extra, fast_execute, fast_step}
use minlz.Decode.Refine.Copies.{copy_from_lem, splice_lem}

-- What is returned as a destination has `n` bytes.
abbrev Sized : (n : ℕ) → Outcome (List ℕ) → Type 0
Sized n (next xs) = length xs ≡ n
Sized n _ = Unit {0}

abbrev pub SizedRegs : (n : ℕ) → Outcome Regs → Type 0
SizedRegs n (next r) = length r.dst ≡ n
SizedRegs n _ = Unit {0}

SizedRegs-any :
    {A : Type 0} (n : ℕ) (m : Outcome A) (f : A → Outcome Regs)
    → ((a : A) → SizedRegs n (f a))
    → SizedRegs n (m >>= f)
SizedRegs-any n (next a) f h = h a
SizedRegs-any n corrupt f h = tt
SizedRegs-any n panic f h = tt
SizedRegs-any n stuck f h = tt

SizedRegs-dst :
    (n : ℕ) (m : Outcome (List ℕ)) (f : List ℕ → Outcome Regs)
    → Sized n m
    → ((xs : List ℕ) → length xs ≡ n → SizedRegs n (f xs))
    → SizedRegs n (m >>= f)
SizedRegs-dst n (next xs) f k h = h xs k
SizedRegs-dst n corrupt f k h = tt
SizedRegs-dst n panic f k h = tt
SizedRegs-dst n stuck f k h = tt

SizedRegs-regs :
    (n : ℕ) (m : Outcome Regs) (f : Regs → Outcome Regs)
    → SizedRegs n m
    → ((r : Regs) → length r.dst ≡ n → SizedRegs n (f r))
    → SizedRegs n (m >>= f)
SizedRegs-regs n (next r) f k h = h r k
SizedRegs-regs n corrupt f k h = tt
SizedRegs-regs n panic f k h = tt
SizedRegs-regs n stuck f k h = tt

copy_from-Sized :
    (want : ℕ) (dst : List ℕ) (d : ℕ) (src : List ℕ) (s n : ℕ)
    → length dst ≡ want
    → Sized want (copy_from dst d src s n)
unfolding copy_from
copy_from-Sized want dst d src s n h =
    elim (Bool-cases (ltb (length src) (s + n) || ltb (length dst) (d + n))) [
      | inl a ↦ rw a tt
      | inr a ↦
          let (out, e, size, _) = copy_from_lem dst d src s n (ground arith) (ground arith) in
          rw (copy_from, e) (size ∙ h)
    ]

forward_copy-Sized :
    (want n d p : ℕ) (dst : List ℕ) → length dst ≡ want → Sized want (forward_copy n d p dst)
unfolding forward_copy
forward_copy-Sized want zero d p dst h = h
forward_copy-Sized want (suc n) d p dst h = elim (Option-cases (get_elem? dst p)) [
  | inl e ↦ rw (forward_copy, e) tt
  | inr (b, e) ↦
      rw (forward_copy, e)
        (forward_copy-Sized want n (d + 1) (p + 1) (set dst d b) (length-set dst d b ∙ h))
]

module _ (n : ℕ) (src : List ℕ) where
  do_copy-SizedRegs : (r : Regs) (len : ℕ) → length r.dst ≡ n → SizedRegs n (do_copy r len)
  unfolding do_copy
  do_copy-SizedRegs r len h =
      elim (Bool-cases (ltb r.d r.offset || ltb (length r.dst) (r.d + len))) [
        | inl a ↦ rw a tt
        | inr a ↦ elim (Bool-cases (ltb len r.offset)) [
          | inl b ↦
              rw (a, b)
                (SizedRegs-dst n (copy_from r.dst r.d r.dst (r.d - r.offset) len) _
                  (copy_from-Sized n r.dst r.d r.dst (r.d - r.offset) len h) (λ xs k. k))
          | inr b ↦
              rw (a, b)
                (SizedRegs-dst n (forward_copy len r.d (r.d - r.offset) r.dst) _
                  (forward_copy-Sized n len r.d (r.d - r.offset) r.dst h) (λ xs k. k))
        ]
      ]

  do_copy2-SizedRegs : (r : Regs) (len : ℕ) → length r.dst ≡ n → SizedRegs n (do_copy2 r len)
  unfolding do_copy2
  do_copy2-SizedRegs r len h = elim (Bool-cases (leb r.offset 0)) [
    | inl a ↦ rw a tt
    | inr a ↦ rw a (do_copy-SizedRegs r len h)
  ]

  do_literals-SizedRegs :
      (r : Regs) (len : ℕ) → length r.dst ≡ n → SizedRegs n (do_literals src r len)
  unfolding do_literals
  do_literals-SizedRegs r len h =
      elim (Bool-cases (ltb (length r.dst) (r.d + len) || ltb (length src) (r.s + len))) [
        | inl a ↦ rw a tt
        | inr a ↦ rw a (
            SizedRegs-dst n (copy_from r.dst r.d src r.s len) _
              (copy_from-Sized n r.dst r.d src r.s len h) (λ xs k. k))
      ]

  pub checked_extra-SizedRegs :
      (r : Regs) (extra : ℕ) → length r.dst ≡ n → SizedRegs n (checked_extra src r extra)
  unfolding checked_extra
  checked_extra-SizedRegs r extra h = elim (Bool-cases (extra == 0)) [
    | inl a ↦ rw a h
    | inr a ↦
        elim (Bool-cases (ltb (length r.dst) (r.d + extra) || ltb (length src) (r.s + extra))) [
          | inl b ↦ rw (a, b) tt
          | inr b ↦
              rw (a, b)
                (SizedRegs-dst n (copy_from r.dst r.d src r.s extra) _
                  (copy_from-Sized n r.dst r.d src r.s extra h) (λ xs k. k))
        ]
  ]

  store32-Sized : (dst : List ℕ) (d v : ℕ) → length dst ≡ n → Sized n (store32 dst d v)
  unfolding store32
  store32-Sized dst d v h = elim (Bool-cases (ltb (length dst) (d + 4))) [
    | inl a ↦ rw a tt
    | inr a ↦ rw a (
        (splice_lem dst d (u8 v ∷ u8 (v / 2 ^ 8) ∷ u8 (v / 2 ^ 16) ∷ u8 (v / 2 ^ 24) ∷ [])
          (ltb→le (length dst) (d + 4) a)).0
        ∙ h)
  ]

  pub fast_extra-SizedRegs :
      (r : Regs) (extra : ℕ) → length r.dst ≡ n → SizedRegs n (fast_extra src r extra)
  unfolding fast_extra
  fast_extra-SizedRegs r extra h = elim (Bool-cases (extra == 0)) [
    | inl a ↦ rw a h
    | inr a ↦ elim (Bool-cases (ltb (length r.dst) (r.d + 4))) [
      | inl b ↦ rw (a, b) tt
      | inr b ↦
          rw (a, b)
            (SizedRegs-any n (load32 src r.s) _ (λ word.
              SizedRegs-dst n (store32 r.dst r.d word) _ (store32-Sized r.dst r.d word h)
                (λ xs k. k)))
    ]
  ]

  pub fast_step-SizedRegs : (r : Regs) → length r.dst ≡ n → SizedRegs n (fast_step src r)
  unfolding fast_step fast_execute
  fast_step-SizedRegs r h = SizedRegs-any n (fast_parse src r.s r.offset) _ executed
    where
      executed : (p : Parsed) → SizedRegs n (fast_execute src r p)
      executed (literals len s) = do_literals-SizedRegs (record r { s = s }) len h
      executed (copy extra offset len s) =
          SizedRegs-regs n (fast_extra src (record r { s = s; offset = offset }) extra) _
            (fast_extra-SizedRegs (record r { s = s; offset = offset }) extra h)
            (λ r' k. do_copy-SizedRegs r' len k)

  pub checked_step-SizedRegs : (r : Regs) → length r.dst ≡ n → SizedRegs n (checked_step src r)
  unfolding checked_step checked_execute
  checked_step-SizedRegs r h = SizedRegs-any n (checked_parse src r.s r.offset) _ executed
    where
      executed : (p : Parsed) → SizedRegs n (checked_execute src r p)
      executed (literals len s) = do_literals-SizedRegs (record r { s = s }) len h
      executed (copy extra offset len s) =
          SizedRegs-regs n (checked_extra src (record r { s = s; offset = offset }) extra) _
            (checked_extra-SizedRegs (record r { s = s; offset = offset }) extra h)
            (λ r' k. do_copy2-SizedRegs r' len k)
