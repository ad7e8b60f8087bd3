-- ===== src/Emit/SameFused.antt =====
-- emitCopyLits2 and emitCopyLits3 against emitCopyLits2 and emitCopy3 of internal/reference.
use minlz.Prelude.{ℕ, ◌+◌, ◌-◌, ◌/◌, ◌%◌, ◌^◌, ◌≤◌, ◌<◌, ◌≡◌, ◌∙◌, sym, ap, refl, arith}
use minlz.Prelude.{
  List, [], ◌∷◌, ◌++◌, append_assoc, length, length-append, length-drop, drop, take-append,
  drop-append,
}
use minlz.Prelude.{false, ltb, leb, Bool-cases, inl, inr, le→ltb}
use minlz.Prelude.Slices.{drop-drop}
use minlz.Bytes.{u8, u16, put16}
use minlz.Reference.Emit
use minlz.Reference.Reader.{ok}
use minlz.Reference.Codes.Copy3.{copy3_code, emit_copy3-code, length-copy3_code}
use minlz.Decode.Machine.{splice}
use minlz.Emit.Buffer.{store16, on_tail}
use minlz.Emit.Write.{emit_repeat, encode_copy3, emit_copy_lits3, write_fused, emit_copy_lits2}
use minlz.Emit.Same.{wrote, seven, encode_copy3_long, emit_repeat_long}
use minlz.Emit.SameLiterals.{literals_behind, four}

-- emitCopyLits3 with at most 3 literals, an offset from 65536 to 65536 + 2^21 - 1, a length of at
-- least 4 and a buffer with room for the literals and seven bytes more does not panic: it writes to
-- the start of the buffer the bytes that emitCopy3 of internal/reference appends, leaves the rest of
-- the buffer as it was, and returns the number of those bytes.
pub emit_copy_lits3-emit_copy3 :
    (dst lits : List ℕ) (offset len : ℕ)
    → length lits + 7 ≤ length dst
    → length lits < 4
    → 65536 ≤ offset
    → offset < 65536 + 2 ^ 21
    → 4 ≤ len
    → (code : List ℕ) × (Emit.emit_copy3 [] offset len lits ≡ ok code)
      × (emit_copy_lits3 dst lits offset len ≡ wrote code dst)
unfolding emit_copy_lits3
emit_copy_lits3-emit_copy3 dst lits offset len h l p q r =
    let head = copy3_code (length lits) offset len in
    let header : encode_copy3 dst offset len (length lits) ≡ wrote head dst =
      seven (λ b. encode_copy3 b offset len (length lits) ≡ wrote head b)
        (λ x0 x1 x2 x3 x4 x5 x6 b.
          encode_copy3_long x0 x1 x2 x3 x4 x5 x6 b offset len (length lits) l q r)
        dst (omega arith) in
    let room : length head + length lits ≤ length dst =
      omega (arith, length-copy3_code (length lits) offset len) in
    (
      head ++ lits,
      emit_copy3-code [] offset len lits p q l r,
      rw (header, literals_behind head dst lits room, length-append head lits) refl,
    )

-- A repeat behind what is already written.
repeat_behind :
    (code dst : List ℕ) (n : ℕ)
    → length code + 4 ≤ length dst
    → on_tail (code ++ drop (length code) dst) (length code) (λ tail. emit_repeat tail n)
      ≡ wrote (code ++ Emit.emit_repeat [] n) dst
unfolding on_tail
repeat_behind code dst n h =
    let rest = drop (length code) dst in
    let more = Emit.emit_repeat [] n in
    let again : emit_repeat rest n ≡ wrote more rest =
      four (λ b. emit_repeat b n ≡ wrote (Emit.emit_repeat [] n) b)
        (λ a b c d bs. emit_repeat_long a b c d bs n) rest
        (omega (arith, length-drop (length code) dst)) in
    let reached : ltb (length (code ++ rest)) (length code) ≡ false =
      le→ltb (length (code ++ rest)) (length code) (omega (arith, length-append code rest)) in
    rw
      (
        reached,
        take-append code rest,
        drop-append code rest,
        again,
        length-append code more,
        drop-drop (length more) (length code) dst,
        append_assoc code more,
      )
      refl

-- The header of a fused copy, and the literals.
write_fused_lem :
    (dst lits : List ℕ) (offset x : ℕ)
    → length lits + 3 ≤ length dst
    → write_fused dst lits offset x
      ≡ wrote ((Emit.fused_tag x (length lits) ∷ put16 (offset - 64)) ++ lits) dst
unfolding write_fused store16 splice
write_fused_lem (a ∷ b ∷ c ∷ dst) lits offset x h =
    let o = offset - 64 in
    let lo : u16 o % 2 ^ 8 ≡ o % 2 ^ 8 = omega arith in
    let hi : u16 o / 2 ^ 8 % 2 ^ 8 ≡ o / 2 ^ 8 % 2 ^ 8 = omega arith in
    let fits : ltb (length (a ∷ b ∷ c ∷ dst)) 3 ≡ false = ground arith in
    let in_range : leb (length (a ∷ u8 o ∷ u8 (o / 2 ^ 8) ∷ dst)) 0 ≡ false = ground arith in
    rw (fits, lo, hi, in_range)
      (literals_behind (Emit.fused_tag x (length lits) ∷ put16 o) (a ∷ b ∷ c ∷ dst) lits
        (omega arith))
write_fused_lem [] lits offset x h = absurd (omega arith)
write_fused_lem (a ∷ []) lits offset x h = absurd (omega arith)
write_fused_lem (a ∷ b ∷ []) lits offset x h = absurd (omega arith)

emit_repeat_append :
    (code : List ℕ) (n : ℕ) → Emit.emit_repeat code n ≡ code ++ Emit.emit_repeat [] n
unfolding Emit.emit_repeat
emit_repeat_append code n = ground arith

-- emitCopyLits2, on a buffer with room for the literals and seven bytes more, does not panic: it
-- writes to the start of the buffer the bytes that emitCopyLits2 of internal/reference appends,
-- leaves the rest of the buffer as it was, and returns the number of those bytes.
pub emit_copy_lits2-emit_copy_lits2 :
    (dst lits : List ℕ) (offset len : ℕ)
    → length lits + 7 ≤ length dst
    → emit_copy_lits2 dst lits offset len ≡ wrote (Emit.emit_copy_lits2 [] lits offset len) dst
unfolding emit_copy_lits2 Emit.emit_copy_lits2
emit_copy_lits2-emit_copy_lits2 dst lits offset len h = elim (Bool-cases (ltb 7 (len - 4))) [
  | inr a ↦ rw a (write_fused_lem dst lits offset (len - 4) (omega arith))
  | inl a ↦
      let code = (Emit.fused_tag 7 (length lits) ∷ put16 (offset - 64)) ++ lits in
      rw (a, write_fused_lem dst lits offset 7 (omega arith))
        (repeat_behind code dst (len - 4 - 7) (omega arith)
          ∙ ap (λ (bs : List ℕ). wrote bs dst) (sym (emit_repeat_append code (len - 4 - 7))))
]
