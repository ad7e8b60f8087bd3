-- ===== src/Level1/Loads.antt =====
-- What a load inside of a slice of bytes gives, byte by byte.
use minlz.Prelude.{
  ℕ, zero, suc, ◌+◌, ◌-◌, ◌*◌, ◌/◌, ◌%◌, ◌^◌, ◌≤◌, ◌<◌, ◌≡◌, refl, sym, ◌∙◌, ap, arith,
}
use minlz.Prelude.{bit_or, List, length, some, All, get_elem?, get_elem?-lt}
use minlz.Prelude.{◌==◌, Bool-cases, inl, inr, ==_iff, ltb, ltb→lt, ltb→le}
use minlz.Prelude.Slices.{All-get_elem?}
use minlz.Prelude.Bits.{bit_or_low}
use native.Mathlib.Nat.{add-zero}
use mathlib.Core.Option.{some_inj}
use minlz.Bytes.{IsByte, le32, le32_lem, u32}
use minlz.Decode.Machine.{next, load8, load32}
use minlz.Level1.Words.{load64}
use minlz.Level1.Mismatch.{same_bytes}

-- The `n` bytes of the slice from `i` on are the low bytes of the word `w`.
abbrev pub Holds : (src : List ℕ) (i w n : ℕ) → Type 0
Holds src i w zero = Unit {0}
Holds src i w (suc n) = (get_elem? src i ≡ some (w % 256)) × Holds src (i + 1) (w / 256) n

-- The `n` bytes at `p` are those at `c`.
abbrev pub Agree : (src : List ℕ) (p c n : ℕ) → Type 0
Agree src p c n = (k : ℕ) → k < n → get_elem? src (p + k) ≡ get_elem? src (c + k)

-- A word of four bytes or of eight, and no more.
pub record Word (src : List ℕ) (i w n : ℕ) : Type 0 where
  pub holds : Holds src i w n
  pub bounded : w < 256 ^ n

pub Agree-suc :
    (src : List ℕ) (p c n : ℕ)
    → get_elem? src p ≡ get_elem? src c
    → Agree src (p + 1) (c + 1) n
    → Agree src p c (suc n)
Agree-suc src p c n e f zero h = rw (add-zero p, add-zero c) e
Agree-suc src p c n e f (suc k) h =
    let a : p + 1 + k ≡ p + suc k = omega arith in
    let b : c + 1 + k ≡ c + suc k = omega arith in rw (a, b) at (f k (omega arith))

-- Words that agree on their low bytes come from bytes that agree.
pub Holds-Agree :
    (src : List ℕ) (n i j x y k : ℕ)
    → Holds src i x n
    → Holds src j y n
    → k ≤ same_bytes n x y
    → k ≤ n
    → Agree src i j k
Holds-Agree src n i j x y zero h g p q = λ k l. absurd (omega arith)
Holds-Agree src zero i j x y (suc k) h g p q = absurd (omega arith)
Holds-Agree src (suc n) i j x y (suc k) h g p q = elim (Bool-cases (x % 256 == y % 256)) [
  | inl e ↦
      Agree-suc src i j k (h.0 ∙ ap some ((==_iff _ _).0 e) ∙ sym g.0) (
        Holds-Agree src n (i + 1) (j + 1) (x / 256) (y / 256) k h.1 g.1 (ground arith)
          (omega arith))
  | inr e ↦ absurd (ground arith)
]

-- Bytes that agree give words that agree on their low bytes.
pub Agree-same_bytes :
    (src : List ℕ) (n i j x y k : ℕ)
    → Holds src i x n
    → Holds src j y n
    → Agree src i j k
    → k ≤ n
    → k ≤ same_bytes n x y
Agree-same_bytes src n i j x y zero h g f q = omega arith
Agree-same_bytes src zero i j x y (suc k) h g f q = absurd (omega arith)
Agree-same_bytes src (suc n) i j x y (suc k) h g f q =
    let z = rw (add-zero i, add-zero j) at (f 0 (omega arith)) in
    let low : x % 256 ≡ y % 256 = some_inj.0 (sym h.0 ∙ z ∙ g.0) in
    let rest =
      Agree-same_bytes src n (i + 1) (j + 1) (x / 256) (y / 256) k h.1 g.1
        (λ m l.
          let a : i + suc m ≡ i + 1 + m = omega arith in
          let b : j + suc m ≡ j + 1 + m = omega arith in rw (a, b) at (f (suc m) (omega arith)))
        (omega arith) in
    ground (arith)

pub load8_lem : (src : List ℕ) (i : ℕ) {a : ℕ} → get_elem? src i ≡ some a → load8 src i ≡ next a
load8_lem src i e = rw (e, load8) refl

-- The bytes of a word of four, by what they add up to.
four_bytes :
    (src : List ℕ) (i a b c d w : ℕ)
    → get_elem? src i ≡ some a
    → get_elem? src (i + 1) ≡ some b
    → get_elem? src (i + 1 + 1) ≡ some c
    → get_elem? src (i + 1 + 1 + 1) ≡ some d
    → IsByte a
    → IsByte b
    → IsByte c
    → IsByte d
    → w ≡ a + 256 * b + 65536 * c + 16777216 * d
    → Word src i w 4
four_bytes src i a b c d w p q r t ba bb bc bd e = record {
  holds = (
    p ∙ ap some (omega arith),
    (q ∙ ap some (omega arith), (r ∙ ap some (omega arith), (t ∙ ap some (omega arith), tt))),
  );
  bounded = omega arith;
}

module _ (src : List ℕ) (bytes : All IsByte src) where
  pub load32-Word :
      (i : ℕ) → i + 4 ≤ length src → (w : ℕ) × (load32 src i ≡ next w) × Word src i w 4
  unfolding load32
  load32-Word i h =
      let two : i + 2 ≡ i + 1 + 1 = omega arith in
      let three : i + 3 ≡ i + 1 + 1 + 1 = omega arith in
      let (a, p) = get_elem?-lt src i (omega arith) in
      let (b, q) = get_elem?-lt src (i + 1) (omega arith) in
      let (c, r) = get_elem?-lt src (i + 1 + 1) (omega arith) in
      let (d, t) = get_elem?-lt src (i + 1 + 1 + 1) (omega arith) in
      let ba = All-get_elem? IsByte src i bytes p in
      let bb = All-get_elem? IsByte src (i + 1) bytes q in
      let bc = All-get_elem? IsByte src (i + 1 + 1) bytes r in
      let bd = All-get_elem? IsByte src (i + 1 + 1 + 1) bytes t in
      (
        le32 a b c d,
        rw
            (
              two,
              three,
              load8_lem src i p,
              load8_lem src (i + 1) q,
              load8_lem src (i + 1 + 1) r,
              load8_lem src (i + 1 + 1 + 1) t,
            )
            refl,
        four_bytes src i a b c d (le32 a b c d) p q r t ba bb bc bd (le32_lem a b c d ba bb bc),
      )

  -- Two halves make a word of eight.
  halves :
      (i x y w : ℕ) → Word src i x 4 → Word src (i + 4) y 4 → w ≡ x + y * 2 ^ 32 → Word src i w 8
  halves i x y w l h e =
      let a : i + 4 ≡ i + 1 + 1 + 1 + 1 = omega arith in
      let bx = l.bounded in
      let by = h.bounded in
      let (p, (q, (r, (t, _)))) = l.holds in
      let (p', (q', (r', (t', _)))) = rw a at h.holds in
      record {
        holds = (
          p ∙ ap some (omega arith),
          (
            q ∙ ap some (omega arith),
            (
              r ∙ ap some (omega arith),
              (
                t ∙ ap some (omega arith),
                (
                  p' ∙ ap some (omega arith),
                  (
                    q' ∙ ap some (omega arith),
                    (r' ∙ ap some (omega arith), (t' ∙ ap some (omega arith), tt)),
                  ),
                ),
              ),
            ),
          ),
        );
        bounded = omega arith;
      }

  pub load64-Word :
      (i : ℕ) → i + 8 ≤ length src → (w : ℕ) × (load64 src i ≡ next w) × Word src i w 8
  unfolding load64
  load64-Word i h =
      let (x, p, l) = load32-Word i (omega arith) in
      let (y, q, m) = load32-Word (i + 4) (omega arith) in
      let bx = l.bounded in
      (
        bit_or x (y * 2 ^ 32),
        rw (p, q) refl,
        halves i x y (bit_or x (y * 2 ^ 32)) l m (omega (arith, bit_or_low 32 y x (omega arith))),
      )

-- The low four bytes of a longer word.
pub Word-low :
    (src : List ℕ) (i w n : ℕ) → Holds src i w (suc (suc (suc (suc n)))) → Word src i (u32 w) 4
Word-low src i w n (p, (q, (r, (t, _)))) = record {
  holds = (
    p ∙ ap some (omega arith),
    (q ∙ ap some (omega arith), (r ∙ ap some (omega arith), (t ∙ ap some (omega arith), tt))),
  );
  bounded = omega arith;
}

-- Equal words of four bytes come from equal bytes.
pub Word-Agree : (src : List ℕ) (i j w : ℕ) → Word src i w 4 → Word src j w 4 → Agree src i j 4
Word-Agree src i j w x y = Holds-Agree src 4 i j w w 4 x.holds y.holds (ground arith) (omega arith)

pub Agree-append :
    (src : List ℕ) (p c a b : ℕ)
    → Agree src p c a
    → Agree src (p + a) (c + a) b
    → Agree src p c (a + b)
Agree-append src p c a b f g k h = elim (Bool-cases (ltb k a)) [
  | inl e ↦ f k (ltb→lt k a e)
  | inr e ↦
      let a_le : a ≤ k = ltb→le k a e in
      let x : p + a + (k - a) ≡ p + k = omega arith in
      let y : c + a + (k - a) ≡ c + k = omega arith in rw (x, y) at (g (k - a) (omega arith))
]

pub Agree-drop : (src : List ℕ) (p c a b : ℕ) → Agree src p c (a + b) → Agree src (p + a) (c + a) b
Agree-drop src p c a b f k h =
    let x : p + (a + k) ≡ p + a + k = omega arith in
    let y : c + (a + k) ≡ c + a + k = omega arith in rw (x, y) at (f (a + k) (omega arith))

-- Up to `q`, and on from there.
pub Agree-join :
    (src : List ℕ) (p q t c c' : ℕ)
    → p ≤ q
    → q ≤ t
    → c + (q - p) ≡ c'
    → Agree src p c (q - p)
    → Agree src q c' (t - q)
    → Agree src p c (t - p)
Agree-join src p q t c c' h k e f g =
    let size : t - p ≡ q - p + (t - q) = omega arith in
    let there : p + (q - p) ≡ q = omega arith in
    rw size (Agree-append src p c (q - p) (t - q) f (rw (there, e) g))
