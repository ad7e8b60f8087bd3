-- ===== src/Reference/RoundTrip/Copies.antt =====
-- The functions that emit a copy, against the decoder's state and with the bytes they take.
use minlz.Prelude.{ℕ, ◌+◌, ◌-◌, ◌^◌, ◌≤◌, ◌<◌, ◌≡◌, refl, sym, ◌∙◌, ap, arith}
use minlz.Prelude.{List, ◌++◌, append_assoc, length, length-append}
use minlz.Prelude.Slices.{All-append, All-slice}
use minlz.Bytes.{IsByte}
use minlz.Reference.Codes.Octets.{copy1_code-IsByte, copy2_code-IsByte}
use minlz.Reference.Codes.Octets.{copy3_code-IsByte, fused_code-IsByte}
use minlz.Prelude.{take, drop, leb, if◌then◌else◌, Bool-cases, inl, inr, leb→le}
use mathlib.Core.Path.{subst}
use minlz.Reference.Reader.{ok}
use minlz.Reference.Decoder.{max_block_size}
use minlz.Reference.Emit.{emit_copy1, emit_copy2, emit_copy3, emit_copy_lits2}
use minlz.Reference.Codes.Literal.{length_code}
use minlz.Reference.Codes.Copy.{copy1_code, copy1_code-Encodes, length-copy1_code, emit_copy1-code}
use minlz.Reference.Codes.Copy.{copy2_code, copy2_code-Encodes, length-copy2_code, emit_copy2-code}
use minlz.Reference.Codes.Copy3.{copy3_code, copy3_code-Encodes, length-copy3_code, emit_copy3-code}
use minlz.Reference.Codes.Fused.{
  fused_code, fused_code-Encodes, length-fused_code, emit_copy_lits2-code,
}
use minlz.Reference.RoundTrip.Source.{IsMatch, IsMatch-front}
use minlz.Reference.RoundTrip.Source.{copy_Decodes, plain_Decodes, length-slice}
use minlz.Reference.RoundTrip.Emits.{Emits, Emits-as, then_repeat}

module _ (src : List ℕ) (fits : length src ≤ max_block_size) where
  short_copy1-Emits :
      (n last offset len : ℕ) (dst : List ℕ)
      → 1 ≤ last
      → offset ≤ 1024
      → 4 ≤ len
      → len ≤ 273
      → IsMatch src n offset len
      → Emits src n last (n + len) offset dst (dst ++ copy1_code offset len) 3
  short_copy1-Emits n last offset len dst p q r t m = record {
    bytes = copy1_code offset len;
    split = refl;
    replays =
        plain_Decodes src fits n last offset len (copy1_code offset len) p m
          (copy1_code-Encodes last offset len m.behind q r t);
    short = length-copy1_code offset len;
    octets = λ b. copy1_code-IsByte offset len;
  }

  pub emit_copy1-Emits :
      (n last offset len : ℕ) (dst : List ℕ)
      → 1 ≤ last
      → offset ≤ 1024
      → 4 ≤ len
      → IsMatch src n offset len
      → Emits src n last (n + len) offset dst (emit_copy1 dst offset len) 7
  emit_copy1-Emits n last offset len dst p q r m = elim (Bool-cases (leb len 273)) [
    | inl a ↦
        Emits-as 3 7 (short_copy1-Emits n last offset len dst p q r (leb→le len 273 a) m)
          (emit_copy1-code dst offset len m.behind q r ∙ rw a) (omega arith)
    | inr a ↦
        let e : len ≡ 18 + (len - 18) = ground arith in
        let m' : IsMatch src n offset (18 + (len - 18)) = subst (IsMatch src n offset) e m in
        let front =
          short_copy1-Emits n last offset 18 dst p q (omega arith) (omega arith)
            (IsMatch-front src n offset 18 (len - 18) m') in
        let whole =
          then_repeat src fits n last offset 18 (len - 18) n dst (dst ++ copy1_code offset 18) 3
            (ground arith) m' front in
        let same : emit_copy1 dst offset len
            ≡ (dst ++ copy1_code offset 18) ++ length_code 4 (len - 18) =
          emit_copy1-code dst offset len m.behind q r
          ∙ rw a (sym (append_assoc dst (copy1_code offset 18) (length_code 4 (len - 18)))) in
        Emits-as 7 7
          (subst
            (λ j.
              Emits src n last (n + j) offset dst
                ((dst ++ copy1_code offset 18) ++ length_code 4 (len - 18)) 7)
            (sym e) whole)
          same (omega arith)
  ]

  pub emit_copy2-Emits :
      (n last offset len : ℕ) (dst : List ℕ)
      → 1 ≤ last
      → 64 ≤ offset
      → offset < 65600
      → 4 ≤ len
      → IsMatch src n offset len
      → (dst' : List ℕ) × (emit_copy2 dst offset len ≡ ok dst')
        × Emits src n last (n + len) offset dst dst' 7
  emit_copy2-Emits n last offset len dst p q r t m = (
    dst ++ copy2_code offset len,
    emit_copy2-code dst offset len t,
    record {
      bytes = copy2_code offset len;
      split = refl;
      replays =
          plain_Decodes src fits n last offset len (copy2_code offset len) p m
            (copy2_code-Encodes last offset len q r t (omega (arith, m.within)));
      short = omega (arith, length-copy2_code offset len);
      octets = λ b. copy2_code-IsByte offset len;
    },
  )

  pub emit_copy3-Emits :
      (n k last offset len : ℕ) (dst : List ℕ)
      → 1 ≤ last
      → k < 4
      → 65536 ≤ offset
      → offset < 65536 + 2 ^ 21
      → 4 ≤ len
      → IsMatch src (n + k) offset len
      → (dst' : List ℕ) × (emit_copy3 dst offset len (take k (drop n src)) ≡ ok dst')
        × Emits src n last (n + k + len) offset dst dst' (7 + k)
  emit_copy3-Emits n k last offset len dst p q r t h m =
      let size = length-slice src fits n k (omega (arith, m.within)) in
      let lits = take k (drop n src) in
      (
        dst ++ (copy3_code k offset len ++ lits),
        emit_copy3-code dst offset len lits r t (rw size q) h
            ∙ ap (λ (j : ℕ). ok (dst ++ (copy3_code j offset len ++ lits))) size,
        record {
          bytes = copy3_code k offset len ++ lits;
          split = refl;
          replays =
              copy_Decodes src fits n k last offset len (copy3_code k offset len) p (omega arith) m
                (copy3_code-Encodes last k offset len q r t h (omega (arith, m.within)));
          short = rw (length-append, size) (omega (arith, length-copy3_code k offset len));
          octets = λ b.
              All-append IsByte (copy3_code k offset len) lits (copy3_code-IsByte k offset len)
                (All-slice IsByte k n src b);
        },
      )

  short_lits2-Emits :
      (n k last offset len : ℕ) (dst : List ℕ)
      → 1 ≤ last
      → 1 ≤ k
      → k ≤ 4
      → 64 ≤ offset
      → offset < 65600
      → 4 ≤ len
      → len ≤ 11
      → IsMatch src (n + k) offset len
      → Emits src n last
          (n + k + len)
          offset
          dst
          (dst ++ (fused_code k offset len ++ take k (drop n src)))
          7
  short_lits2-Emits n k last offset len dst l p q r t h b m =
      let size = length-slice src fits n k (omega (arith, m.within)) in
      record {
        bytes = fused_code k offset len ++ take k (drop n src);
        split = refl;
        replays =
            copy_Decodes src fits n k last offset len (fused_code k offset len) l q m
              (fused_code-Encodes last k offset len p q r t h b);
        short = rw (length-append, size) (omega (arith, length-fused_code k offset len));
        octets = λ c.
            All-append IsByte (fused_code k offset len) (take k (drop n src))
              (fused_code-IsByte k offset len p q b) (All-slice IsByte k n src c);
      }

  pub emit_copy_lits2-Emits :
      (n k last offset len : ℕ) (dst : List ℕ)
      → 1 ≤ last
      → 1 ≤ k
      → k ≤ 4
      → 64 ≤ offset
      → offset < 65600
      → 4 ≤ len
      → IsMatch src (n + k) offset len
      → Emits src n last
          (n + k + len)
          offset
          dst
          (emit_copy_lits2 dst (take k (drop n src)) offset len)
          11
  emit_copy_lits2-Emits n k last offset len dst l p q r t h m = elim (Bool-cases (leb len 11)) [
    | inl a ↦
        Emits-as 7 11 (short_lits2-Emits n k last offset len dst l p q r t h (leb→le len 11 a) m)
          (code ∙ rw a) (omega arith)
    | inr a ↦
        let e : len ≡ 11 + (len - 11) = ground arith in
        let m' : IsMatch src (n + k) offset (11 + (len - 11)) =
          subst (IsMatch src (n + k) offset) e m in
        let front =
          short_lits2-Emits n k last offset 11 dst l p q r t (omega arith) (omega arith)
            (IsMatch-front src (n + k) offset 11 (len - 11) m') in
        let whole =
          then_repeat src fits n last offset 11 (len - 11) (n + k) dst (dst ++ (header 11 ++ lits))
            7 (ground arith) m' front in
        Emits-as 11 11
          (subst
            (λ j.
              Emits src n last (n + k + j) offset dst
                ((dst ++ (header 11 ++ lits)) ++ length_code 4 (len - 11)) 11)
            (sym e) whole)
          (code ∙ rw a (regroup (length_code 4 (len - 11)))) (omega arith)
  ]
    where
      lits : List ℕ
      lits = take k (drop n src)

      header : ℕ → List ℕ
      header j = fused_code k offset j

      size : length lits ≡ k
      size = length-slice src fits n k (omega (arith, m.within))

      code : emit_copy_lits2 dst lits offset len ≡ (
          if leb len 11
          then dst ++ (header len ++ lits)
          else dst ++ (header 11 ++ (lits ++ length_code 4 (len - 11))))
      code =
          emit_copy_lits2-code dst lits offset len (rw size p) (rw size q) h
          ∙ ap
              (λ (j : ℕ).
                if leb len 11
                then dst ++ (fused_code j offset len ++ lits)
                else dst ++ (fused_code j offset 11 ++ (lits ++ length_code 4 (len - 11))))
              size

      regroup :
          (xs : List ℕ) → dst ++ (header 11 ++ (lits ++ xs)) ≡ (dst ++ (header 11 ++ lits)) ++ xs
      regroup xs = simp append_assoc
