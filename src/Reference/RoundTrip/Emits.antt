-- ===== src/Reference/RoundTrip/Emits.antt =====
-- Each function that emits an operation, against the decoder's state and with the bytes it takes.
use minlz.Prelude.{ℕ, ◌+◌, ◌≤◌, ◌<◌, ◌≡◌, sym, ◌∙◌, ap, arith}
use minlz.Prelude.{List, ◌++◌, All, append_assoc, length, length-append}
use minlz.Prelude.{take, drop}
use mathlib.Core.Path.{subst}
use minlz.Prelude.Slices.{All-append, All-slice}
use minlz.Bytes.{IsByte}
use minlz.Reference.Codes.Octets.{length_code-IsByte}
use minlz.Reference.Decoder.{max_block_size}
use minlz.Reference.Emit.{emit_literals, emit_repeat}
use minlz.Reference.Codes.Literal.{length_code, emit_literals-length_code, emit_repeat-length_code}
use minlz.Reference.Codes.Literal.{length_code-literals, length_code-repeat, length-length_code}
use minlz.Reference.RoundTrip.Replay.{Decodes, Decodes-trans}
use minlz.Reference.RoundTrip.Source.{At, IsMatch, IsMatch-back}
use minlz.Reference.RoundTrip.Source.{literals_Decodes, plain_Decodes, length-slice}

-- `dst'` adds at most `most` bytes to `dst`, which take the decoder from `n` bytes of the source
-- with `last` to repeat, to `n'` bytes with `offset` to repeat.
pub record Emits (src : List ℕ) (n last n' offset : ℕ) (dst dst' : List ℕ) (most : ℕ) : Type 0 where
  pub bytes : List ℕ
  pub split : dst' ≡ dst ++ bytes
  pub replays : Decodes (length src) (At src n last) bytes (At src n' offset)
  pub short : length bytes ≤ most
  pub octets : All IsByte src → All IsByte bytes

pub Emits-trans :
    (src : List ℕ) (a la b lb c lc : ℕ) (dst dst' dst'' : List ℕ) (x y : ℕ)
    → Emits src a la b lb dst dst' x
    → Emits src b lb c lc dst' dst'' y
    → Emits src a la c lc dst dst'' (x + y)
Emits-trans src a la b lb c lc dst dst' dst'' x y e f = record {
  bytes = e.bytes ++ f.bytes;
  split = f.split ∙ rw e.split (append_assoc dst e.bytes f.bytes);
  replays =
      Decodes-trans (length src) (At src a la) (At src b lb) (At src c lc) e.bytes f.bytes e.replays
        f.replays;
  short = rw length-append (omega (arith, e.short, f.short));
  octets = λ b. All-append IsByte e.bytes f.bytes (e.octets b) (f.octets b);
}

-- The same operation under another name, with a weaker bound.
pub Emits-as :
    {src : List ℕ} {n last n' offset : ℕ} {dst dst' dst'' : List ℕ} (x y : ℕ)
    → Emits src n last n' offset dst dst' x
    → dst'' ≡ dst'
    → x ≤ y
    → Emits src n last n' offset dst dst'' y
Emits-as x y e p q = record {
  bytes = e.bytes;
  split = p ∙ e.split;
  replays = e.replays;
  short = omega (arith, e.short);
  octets = e.octets;
}

module _ (src : List ℕ) (fits : length src ≤ max_block_size) where
  pub emit_literals-Emits :
      (n k last : ℕ) (dst : List ℕ)
      → 1 ≤ last
      → 1 ≤ k
      → n + k ≤ length src
      → k < max_block_size
      → Emits src n last (n + k) last dst (emit_literals dst (take k (drop n src))) (4 + k)
  emit_literals-Emits n k last dst l p q r =
      let size = length-slice src fits n k q in
      record {
        bytes = length_code 0 k ++ take k (drop n src);
        split =
            emit_literals-length_code dst (take k (drop n src)) (rw size p)
            ∙ ap (λ (j : ℕ). dst ++ (length_code 0 j ++ take k (drop n src))) size;
        replays =
            literals_Decodes src fits n k last (length_code 0 k) l q r
              (length_code-literals last k p (omega arith));
        short = rw (length-append, size) (omega (arith, length-length_code 0 k));
        octets = λ b.
            All-append IsByte (length_code 0 k) (take k (drop n src))
              (length_code-IsByte 0 k (omega arith)) (All-slice IsByte k n src b);
      }

  pub emit_repeat-Emits :
      (n offset len : ℕ) (dst : List ℕ)
      → 1 ≤ len
      → IsMatch src n offset len
      → Emits src n offset (n + len) offset dst (emit_repeat dst len) 4
  emit_repeat-Emits n offset len dst p m = record {
    bytes = length_code 4 len;
    split = emit_repeat-length_code dst len p;
    replays =
        plain_Decodes src fits n offset offset len (length_code 4 len) m.behind m
          (length_code-repeat offset len p (omega (arith, m.within)));
    short = (length-length_code 4 len).1;
    octets = λ b. length_code-IsByte 4 len (omega arith);
  }

  -- A repeat goes on with the copy before it.
  pub then_repeat :
      (n last offset a b base : ℕ) (dst dst' : List ℕ) (most : ℕ)
      → 1 ≤ b
      → IsMatch src base offset (a + b)
      → Emits src n last (base + a) offset dst dst' most
      → Emits src n last (base + (a + b)) offset dst (dst' ++ length_code 4 b) (most + 4)
  then_repeat n last offset a b base dst dst' most p m e =
      let tail =
        emit_repeat-Emits (base + a) offset b dst' p (IsMatch-back src base offset a b m) in
      let z : base + a + b ≡ base + (a + b) = omega arith in
      Emits-trans src n last (base + a) offset (base + (a + b)) offset dst dst'
        (dst' ++ length_code 4 b) most 4 e
        (subst (λ j. Emits src (base + a) offset j offset dst' (dst' ++ length_code 4 b) 4) z
          (Emits-as 4 4 tail (sym (emit_repeat-length_code dst' b p)) (omega arith)))
