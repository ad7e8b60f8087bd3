-- ===== src/Level1/Advance.antt =====
-- What an emission on the tail of a buffer does to the part that is written already.
use minlz.Prelude.{ℕ, zero, suc, ◌+◌, ◌^◌, ◌≤◌, ◌<◌, ◌≡◌, refl, sym, ◌∙◌, ap, arith}
use minlz.Prelude.{List, [], ◌++◌, length, length-append, length-take}
use minlz.Prelude.{length-drop, take, drop, take-append}
use minlz.Prelude.{leb, Bool-cases, inl, inr, leb→le, le→ltb}
use minlz.Prelude.Slices.{take_append_add}
use mathlib.Core.Path.{subst}
use minlz.Decode.Machine.{Outcome}
use minlz.Reference.Reader.{Result, ok}
use minlz.Reference.Decoder.{max_block_size}
use minlz.Reference.Emit
use minlz.Reference.RoundTrip.Source.{IsMatch, length-slice}
use minlz.Reference.RoundTrip.Emits.{
  Emits, Emits-trans, Emits-as, emit_literals-Emits, emit_repeat-Emits,
}
use minlz.Reference.RoundTrip.Copies.{
  emit_copy1-Emits, emit_copy2-Emits, emit_copy3-Emits, emit_copy_lits2-Emits,
}
use minlz.Reference.RoundTrip.Found.{Emits-length}
use minlz.Emit.Buffer.{on_tail}
use minlz.Emit.Write.{emit_literal, emit_repeat, emit_copy, emit_copy_lits2, emit_copy_lits3}
use minlz.Emit.Same.{wrote, emit_by_offset, emit_repeat_long, emit_copy-emit_by_offset}
use minlz.Emit.SameLiterals.{four, emit_literal-emit_literals}
use minlz.Emit.SameFused.{emit_copy_lits2-emit_copy_lits2, emit_copy_lits3-emit_copy3}
use minlz.Level1.Ends.{Ends}

-- At most `most` bytes more are written behind the first `d`, and they take the decoder from `n`
-- bytes of the source to `n'`.
pub record Advance (src : List ℕ) (n last n' offset : ℕ) (dst : List ℕ) (d most : ℕ)
    (r : List ℕ × ℕ) : Type 0 where
  pub emits : Emits src n last n' offset (take d dst) (take r.1 r.0) most
  pub size : length r.0 ≡ length dst
  pub fits : r.1 ≤ length dst
  pub near : r.1 ≤ d + most

pub Advance-trans :
    (src : List ℕ) (a la b lb c lc : ℕ) (dst : List ℕ) (d x y : ℕ) (r t : List ℕ × ℕ)
    → Advance src a la b lb dst d x r
    → Advance src b lb c lc r.0 r.1 y t
    → Advance src a la c lc dst d (x + y) t
Advance-trans src a la b lb c lc dst d x y (dst', d') (dst'', d'') p q = record {
  emits =
      Emits-trans src a la b lb c lc (take d dst) (take d' dst') (take d'' dst'') x y p.emits
        q.emits;
  size = q.size ∙ p.size;
  fits = omega (arith, q.fits, p.size);
  near = omega (arith, q.near, p.near);
}

-- The code of one operation, written behind the first `d` bytes.
Advance-code :
    (src : List ℕ) (n last n' offset : ℕ) (dst code : List ℕ) (d most : ℕ)
    (f : List ℕ → Outcome (List ℕ × ℕ))
    → Emits src n last n' offset [] code most
    → d + length code ≤ length dst
    → f (drop d dst) ≡ wrote code (drop d dst)
    → Ends (Advance src n last n' offset dst d most) (on_tail dst d f)
unfolding on_tail
Advance-code src n last n' offset dst code d most f e h p =
    let short = Emits-length src n last n' offset [] code most e in
    let rest = drop (length code) (drop d dst) in
    let front : length (take d dst) ≡ d = omega (arith, length-take d dst) in
    let written : take (d + length code) (take d dst ++ (code ++ rest)) ≡ take d dst ++ code =
      subst
        (λ (j : ℕ).
          take (j + length code) (take d dst ++ (code ++ rest))
          ≡ take d dst ++ take (length code) (code ++ rest))
        front (take_append_add (take d dst) (code ++ rest) (length code))
      ∙ ap (λ (xs : List ℕ). take d dst ++ xs) (take-append code rest) in
    rw (le→ltb (length dst) d (omega arith), p)
      (record {
        emits = record {
          bytes = e.bytes;
          split = written ∙ ap (λ (xs : List ℕ). take d dst ++ xs) e.split;
          replays = e.replays;
          short = e.short;
          octets = e.octets;
        };
        size =
            length-append (take d dst) (code ++ rest)
            ∙ omega (
              arith,
              front,
              length-append code rest,
              length-drop (length code) (drop d dst),
              length-drop d dst,
            );
        fits = h;
        near = omega arith;
      })

ok_inj : (xs ys : List ℕ) → ◌≡◌ {A = Result (List ℕ)} (ok xs) (ok ys) → xs ≡ ys
ok_inj xs ys e = cc

module _ (src : List ℕ) (fits : length src ≤ max_block_size) where
  -- emitLiteral of `k` bytes, of which there may be none.
  pub emit_literal-Advance :
      (n k last : ℕ) (dst : List ℕ) (d : ℕ)
      → 1 ≤ last
      → n + k ≤ length src
      → k < max_block_size
      → d + k + 4 ≤ length dst
      → Ends
          (Advance src n last (n + k) last dst d (4 + k))
          (on_tail dst d (λ tail. emit_literal tail (take k (drop n src))))
  unfolding emit_literal
  emit_literal-Advance n zero last dst d p q l h =
      let same : n + 0 ≡ n = omega arith in
      Advance-code src n last (n + 0) last dst [] d 4 _
        (rw same (record {
          bytes = [];
          split = refl;
          replays = λ rest. refl;
          short = omega arith;
          octets = λ b. tt;
        }))
        (omega arith) refl
  emit_literal-Advance n (suc k) last dst d p q l h =
      let size = length-slice src fits n (suc k) q in
      let e = emit_literals-Emits src fits n (suc k) last [] p (omega arith) q l in
      let code = Emit.emit_literals [] (take (suc k) (drop n src)) in
      let short = Emits-length src n last (n + suc k) last [] code (4 + suc k) e in
      Advance-code src n last (n + suc k) last dst code d (4 + suc k) _ e (omega arith) (
        emit_literal-emit_literals (drop d dst) (take (suc k) (drop n src))
          (omega (arith, size, length-drop d dst)) (omega (arith, size)) (omega (arith, size)))

  pub emit_repeat-Advance :
      (n offset len : ℕ) (dst : List ℕ) (d : ℕ)
      → 1 ≤ len
      → IsMatch src n offset len
      → d + 4 ≤ length dst
      → Ends
          (Advance src n offset (n + len) offset dst d 4)
          (on_tail dst d (λ tail. emit_repeat tail len))
  emit_repeat-Advance n offset len dst d p m h =
      let e = emit_repeat-Emits src fits n offset len [] p m in
      let code = Emit.emit_repeat [] len in
      let short = Emits-length src n offset (n + len) offset [] code 4 e in
      Advance-code src n offset (n + len) offset dst code d 4 _ e (omega arith) (
        four (λ b. emit_repeat b len ≡ wrote code b) (λ a b c x bs. emit_repeat_long a b c x bs len)
          (drop d dst) (omega (arith, length-drop d dst)))

  -- The copy of the size that the offset asks for.
  by_offset-Emits :
      (n last offset len : ℕ) (code : List ℕ)
      → 1 ≤ last
      → offset < 65536 + 2 ^ 21
      → 4 ≤ len
      → IsMatch src n offset len
      → emit_by_offset offset len ≡ ok code
      → Emits src n last (n + len) offset [] code 7
  by_offset-Emits n last offset len code p q r m e = elim (Bool-cases (leb offset 1024)) [
    | inl a ↦
        let found = emit_copy1-Emits src fits n last offset len [] p (leb→le _ _ a) r m in
        subst (λ c. Emits src n last (n + len) offset [] c 7) (ok_inj _ code (rw a at e)) found
    | inr a ↦ elim (Bool-cases (leb offset 65599)) [
      | inl b ↦
          let (c, f, x) =
            emit_copy2-Emits src fits n last offset len [] p (ground arith) (ground arith) r m in
          subst (λ c. Emits src n last (n + len) offset [] c 7)
            (ok_inj c code (sym f ∙ (rw (a, b) at e))) x
      | inr b ↦
          let z : n + 0 ≡ n = omega arith in
          let (c, f, x) =
            emit_copy3-Emits src fits n 0 last offset len [] p (omega arith) (ground arith) q r
              (subst (λ j. IsMatch src j offset len) (sym z) m) in
          subst (λ c. Emits src n last (n + len) offset [] c 7)
            (ok_inj c code (sym f ∙ (rw (a, b) at e)))
            (subst (λ j. Emits src n last (j + len) offset [] c 7) z x)
    ]
  ]

  pub emit_copy-Advance :
      (n last offset len : ℕ) (dst : List ℕ) (d : ℕ)
      → 1 ≤ last
      → offset < 65536 + 2 ^ 21
      → 4 ≤ len
      → IsMatch src n offset len
      → d + 7 ≤ length dst
      → Ends
          (Advance src n last (n + len) offset dst d 7)
          (on_tail dst d (λ tail. emit_copy tail offset len))
  emit_copy-Advance n last offset len dst d p q r m h =
      let (code, e, w) =
        emit_copy-emit_by_offset (drop d dst) offset len (omega (arith, length-drop d dst)) m.behind
          q r in
      let x = by_offset-Emits n last offset len code p q r m e in
      let short = Emits-length src n last (n + len) offset [] code 7 x in
      Advance-code src n last (n + len) offset dst code d 7 _ x (omega arith) w

  pub emit_copy_lits2-Advance :
      (n k last offset len : ℕ) (dst : List ℕ) (d : ℕ)
      → 1 ≤ last
      → 1 ≤ k
      → k ≤ 4
      → 64 ≤ offset
      → offset < 65600
      → 4 ≤ len
      → IsMatch src (n + k) offset len
      → d + 11 ≤ length dst
      → Ends
          (Advance src n last (n + k + len) offset dst d 11)
          (on_tail dst d (λ tail. emit_copy_lits2 tail (take k (drop n src)) offset len))
  emit_copy_lits2-Advance n k last offset len dst d l p q r t h m room =
      let lits = take k (drop n src) in
      let size = length-slice src fits n k (omega (arith, m.within)) in
      let x = emit_copy_lits2-Emits src fits n k last offset len [] l p q r t h m in
      let code = Emit.emit_copy_lits2 [] lits offset len in
      let short = Emits-length src n last (n + k + len) offset [] code 11 x in
      Advance-code src n last (n + k + len) offset dst code d 11 _ x (omega arith) (
        emit_copy_lits2-emit_copy_lits2 (drop d dst) lits offset len
          (omega (arith, size, length-drop d dst)))

  pub emit_copy_lits3-Advance :
      (n k last offset len : ℕ) (dst : List ℕ) (d : ℕ)
      → 1 ≤ last
      → k < 4
      → 65536 ≤ offset
      → offset < 65536 + 2 ^ 21
      → 4 ≤ len
      → IsMatch src (n + k) offset len
      → d + 11 ≤ length dst
      → Ends
          (Advance src n last (n + k + len) offset dst d 11)
          (on_tail dst d (λ tail. emit_copy_lits3 tail (take k (drop n src)) offset len))
  emit_copy_lits3-Advance n k last offset len dst d l q r t h m room =
      let lits = take k (drop n src) in
      let size = length-slice src fits n k (omega (arith, m.within)) in
      let (code, e, w) =
        emit_copy_lits3-emit_copy3 (drop d dst) lits offset len
          (omega (arith, size, length-drop d dst)) (omega (arith, size)) r t h in
      let (code', e', x) = emit_copy3-Emits src fits n k last offset len [] l q r t h m in
      let x' : Emits src n last (n + k + len) offset [] code 11 =
        subst (λ c. Emits src n last (n + k + len) offset [] c 11) (ok_inj code' code (sym e' ∙ e))
          (Emits-as (7 + k) 11 x refl (omega arith)) in
      let short = Emits-length src n last (n + k + len) offset [] code 11 x' in
      Advance-code src n last (n + k + len) offset dst code d 11 _ x' (omega arith) w
