-- ===== src/Decode/Refine/Steps.antt =====
-- docopy and doCopy2 against the copy of the reference decoder.
use mathlib.Core.Path.{subst}
use minlz.Prelude.{ℕ, ◌+◌, ◌≤◌, ◌≡◌, refl, arith, length, take, ltb, leb, ◌&&◌}
use minlz.Prelude.{Bool-cases, inl, inr, true, false, ltb→le}
use minlz.Reference.Reader.{Result, ok, err}
use minlz.Reference.Decoder.{State, max_block_size, check_dst_size, put_copy}
use minlz.Decode.Machine.{Outcome, next, corrupt, Regs, do_copy, do_copy2}
use minlz.Decode.Refine.Copies.{either_copy_lem, length-take_le}

-- The registers and the reference decoder's state: `dst` has `want` bytes, the output is what stands
-- before `d`, and both repeat the same offset.
pub record Agrees (want : ℕ) (r : Regs) (st : State) : Type 0 where
  pub size : length r.dst ≡ want
  pub within : r.d ≤ want
  pub out : st.out ≡ take r.d r.dst
  pub offset : st.offset ≡ r.offset

-- Both go on in states that agree, with the position `s` in the source, or both stop with an error;
-- neither panics.
abbrev pub SameState : (want s : ℕ) → Outcome Regs → Result State → Type 0
SameState want s (next r) (ok st) = Agrees want r st × (r.s ≡ s)
SameState want s corrupt (err e) = Unit {0}
SameState want s _ _ = ⊥

do_copy2_filled :
    (len : ℕ) (r : Regs) (st : State)
    → length r.dst ≤ max_block_size
    → r.d ≤ length r.dst
    → 1 ≤ r.offset
    → st.out ≡ take r.d r.dst
    → SameState (length r.dst) r.s (do_copy2 r len) (put_copy (length r.dst) r.offset len st)
unfolding do_copy2 do_copy put_copy check_dst_size
do_copy2_filled len r st small within positive out =
    let positive' : leb r.offset 0 ≡ false = ground arith in
    let full : length (take r.d r.dst) ≡ r.d = length-take_le r.d r.dst within in
    rw (positive', out, full)
      (elim (Bool-cases (ltb r.d r.offset)) [
        | inl a ↦
            rw a (elim (Bool-cases (ltb len max_block_size && leb (r.d + len) (length r.dst))) [
              | inl b ↦ rw b tt
              | inr b ↦ rw b tt
            ])
        | inr a ↦ rw a (elim (Bool-cases (ltb (length r.dst) (r.d + len))) [
          | inl b ↦
              let over : leb (r.d + len) (length r.dst) ≡ false = ground arith in
              rw (b, over)
                (elim (Bool-cases (ltb len max_block_size)) [ inl c ↦ rw c tt | inr c ↦ rw c tt ])
          | inr b ↦
              let reached = ltb→le r.d r.offset a in
              let fits = ltb→le (length r.dst) (r.d + len) b in
              let room : leb (r.d + len) (length r.dst) ≡ true = ground arith in
              let short : ltb len max_block_size ≡ true = ground arith in
              let (dst, e, l, c) = either_copy_lem r.dst r.d r.offset len positive reached fits in
              rw (e, b, room, short, c)
                (record { size = l; within = fits; out = refl; offset = refl }, refl)
        ])
      ])

-- When the output so far is what stands before `d`, and the offset is positive, the copy of
-- minLZDecodeGo and that of DecodeBlock end alike: both with an error, or in states that agree on
-- the output, on the position behind it and on the offset, with the position in the source kept. This holds for every length, at every
-- size of the destination up to the largest block.
pub do_copy2-put_copy :
    (want len : ℕ) (r : Regs) (st : State)
    → want ≤ max_block_size
    → length r.dst ≡ want
    → r.d ≤ want
    → 1 ≤ r.offset
    → st.out ≡ take r.d r.dst
    → SameState want r.s (do_copy2 r len) (put_copy want r.offset len st)
do_copy2-put_copy want len r st small size within positive out =
    subst (λ w. SameState w r.s (do_copy2 r len) (put_copy w r.offset len st)) size
      (do_copy2_filled len r st (omega (arith, size)) (omega (arith, size)) positive out)
