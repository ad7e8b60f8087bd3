-- ===== src/Decode/LeftLength.antt =====
-- The destination has its length where minLZDecodeGo returns an error.
use minlz.Prelude.{ℕ, zero, suc, ◌+◌, ◌≡◌, refl, List, length}
use minlz.Prelude.{ltb, Bool-cases, inl, inr}
use minlz.Decode.Machine.{Outcome, next, corrupt, panic, stuck, Regs, Parsed, literals, copy}
use minlz.Decode.Checked.{checked_parse, checked_step}
use minlz.Decode.Fast.{fast_parse, fast_step}
use minlz.Decode.Left.{
  written, fast_left, checked_left, fast_loop_left, checked_loop_left, min_lz_left,
}
use minlz.Decode.Lengths.{SizedRegs, fast_extra-SizedRegs, checked_extra-SizedRegs}
use minlz.Decode.Lengths.{fast_step-SizedRegs, checked_step-SizedRegs}

module _ (n : ℕ) (src : List ℕ) where
  length-written :
      (dst : List ℕ) (m : Outcome Regs)
      → length dst ≡ n
      → SizedRegs n m
      → length (written dst m) ≡ n
  length-written dst (next r) h k = k
  length-written dst corrupt h k = h
  length-written dst panic h k = h
  length-written dst stuck h k = h

  length-fast_left : (r : Regs) → length r.dst ≡ n → length (fast_left src r) ≡ n
  unfolding fast_left
  length-fast_left r h = parsed (fast_parse src r.s r.offset) refl
    where
      parsed : (p : Outcome Parsed) → fast_parse src r.s r.offset ≡ p → length (fast_left src r) ≡ n
      parsed (next (literals len s)) e = rw (fast_left, e) h
      parsed (next (copy extra offset len s)) e =
          rw (fast_left, e)
            (length-written r.dst _ h
              (fast_extra-SizedRegs n src (record r { s = s; offset = offset }) extra h))
      parsed corrupt e = rw (fast_left, e) h
      parsed panic e = rw (fast_left, e) h
      parsed stuck e = rw (fast_left, e) h

  length-checked_left : (r : Regs) → length r.dst ≡ n → length (checked_left src r) ≡ n
  unfolding checked_left
  length-checked_left r h = parsed (checked_parse src r.s r.offset) refl
    where
      parsed :
          (p : Outcome Parsed)
          → checked_parse src r.s r.offset ≡ p
          → length (checked_left src r) ≡ n
      parsed (next (literals len s)) e = rw (checked_left, e) h
      parsed (next (copy extra offset len s)) e =
          rw (checked_left, e)
            (length-written r.dst _ h
              (checked_extra-SizedRegs n src (record r { s = s; offset = offset }) extra h))
      parsed corrupt e = rw (checked_left, e) h
      parsed panic e = rw (checked_left, e) h
      parsed stuck e = rw (checked_left, e) h

  -- A round that goes on, or the one that returns the error.
  length-round :
      (m : Outcome Regs) (more : Regs → List ℕ) (left : List ℕ)
      → SizedRegs n m
      → ((r : Regs) → length r.dst ≡ n → length (more r) ≡ n)
      → length left ≡ n
      → length (elim m as (λ _. List ℕ) [ next r ↦ more r | _ ↦ left ]) ≡ n
  length-round (next r) more left h k l = k r h
  length-round corrupt more left h k l = l
  length-round panic more left h k l = l
  length-round stuck more left h k l = l

  length-fast_loop_left :
      (fuel : ℕ) (k : Regs → List ℕ) (r : Regs)
      → ((r : Regs) → length r.dst ≡ n → length (k r) ≡ n)
      → length r.dst ≡ n
      → length (fast_loop_left fuel src k r) ≡ n
  unfolding fast_loop_left
  length-fast_loop_left zero k r g h = g r h
  length-fast_loop_left (suc fuel) k r g h = elim (Bool-cases (ltb (r.s + 11) (length src))) [
    | inr a ↦ rw a (g r h)
    | inl a ↦ rw a (
        length-round (fast_step src r) (fast_loop_left fuel src k) (fast_left src r)
          (fast_step-SizedRegs n src r h) (λ r' h'. length-fast_loop_left fuel k r' g h')
          (length-fast_left r h))
  ]

  length-checked_loop_left :
      (fuel : ℕ) (r : Regs) → length r.dst ≡ n → length (checked_loop_left fuel src r) ≡ n
  unfolding checked_loop_left
  length-checked_loop_left zero r h = h
  length-checked_loop_left (suc fuel) r h = elim (Bool-cases (ltb r.s (length src))) [
    | inr a ↦ rw a h
    | inl a ↦ rw a (
        length-round (checked_step src r) (checked_loop_left fuel src) (checked_left src r)
          (checked_step-SizedRegs n src r h) (λ r' h'. length-checked_loop_left fuel r' h')
          (length-checked_left r h))
  ]

-- The destination has its length where minLZDecodeGo returns the error.
pub length-min_lz_left : (dst src : List ℕ) → length (min_lz_left dst src) ≡ length dst
unfolding min_lz_left
length-min_lz_left dst src =
    length-fast_loop_left (length dst) src (length src) (checked_loop_left (length src) src)
      (record { dst = dst; d = 0; s = 0; offset = 1 })
      (λ r h. length-checked_loop_left (length dst) src (length src) r h) refl
