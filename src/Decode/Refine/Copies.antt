-- ===== src/Decode/Refine/Copies.antt =====
-- The copies of minLZDecodeGo on a fixed destination, against copies that append.
use minlz.Prelude.{ℕ, zero, suc, ◌+◌, ◌-◌, ◌≤◌, ◌<◌, ◌≡◌, refl, sym, ◌∙◌, ap, arith}
use minlz.Prelude.{
  List, [], ◌∷◌, ◌++◌, append_assoc, append-nil, length, length-append, length-take,
}
use minlz.Prelude.{some, get_elem?, set, take, drop, length-drop, get_elem?-lt, get_elem?-take}
use minlz.Prelude.{ltb, Bool-cases, inl, inr, le→ltb, ltb→lt, if◌then◌else◌, take-length}
use minlz.Prelude.Slices.{
  drop-suc, take-set, length-set, get_elem?-append_left, take_append_add, take-append_le,
  take-drop-take,
}
use minlz.Reference.Decoder.{copy_loop}
use minlz.Decode.Machine.{next, splice, copy_from, forward_copy}

pub length-take_le {ℓ} : {A : Type ℓ} (n : ℕ) (xs : List A) → n ≤ length xs → length (take n xs) ≡ n
length-take_le n xs h = omega (arith, length-take n xs)

-- A splice that fits keeps the size, and shows in the prefix behind it.
pub splice_lem :
    (dst : List ℕ) (d : ℕ) (xs : List ℕ)
    → d + length xs ≤ length dst
    → (length (splice dst d xs) ≡ length dst)
      × ((n : ℕ) → n ≤ length xs → take (d + n) (splice dst d xs) ≡ take d dst ++ take n xs)
unfolding splice
splice_lem dst d xs h = (
  rw (length-append, length-append, length-take, length-drop) (omega arith),
  λ n p.
      rw (length-take_le d dst (omega arith)) at
        (take_append_add (take d dst) (xs ++ drop (d + length xs) dst) n)
      ∙ ap (λ (ys : List ℕ). take d dst ++ ys) (take-append_le n xs (drop (d + length xs) dst) p),
)

-- The forward loop, overlapping or not.
pub forward_copy_lem :
    (n d p : ℕ) (dst : List ℕ)
    → p < d
    → d + n ≤ length dst
    → (out : List ℕ) × (forward_copy n d p dst ≡ next out)
      × (length out ≡ length dst)
      × (copy_loop n p (take d dst) ≡ some (take (d + n) out))
unfolding forward_copy copy_loop
forward_copy_lem zero d p dst h k =
    (dst, refl, refl, ap (λ (j : ℕ). some (take j dst)) (omega arith))
forward_copy_lem (suc n) d p dst h k =
    let (b, e) = get_elem?-lt dst p (omega arith) in
    let (out, r, l, c) =
      forward_copy_lem n (d + 1) (p + 1) (set dst d b) (omega arith)
        (rw length-set (omega arith)) in
    let seen : get_elem? (take d dst) p ≡ some b = get_elem?-take p d dst h ∙ e in
    let grown : take d dst ++ (b ∷ []) ≡ take (d + 1) (set dst d b) =
      sym (take-set d dst b (omega arith)) in
    let z : d + 1 + n ≡ d + suc n = omega arith in
    (
      out,
      rw (e, forward_copy) r,
      l ∙ length-set dst d b,
      rw (seen, copy_loop, grown) (c ∙ ap (λ (j : ℕ). some (take j out)) z),
    )

-- A copy that does not reach what it appends.
pub copy_loop_slice :
    (n p : ℕ) (out acc : List ℕ)
    → p + n ≤ length out
    → copy_loop n p (out ++ acc) ≡ some ((out ++ acc) ++ take n (drop p out))
unfolding copy_loop
copy_loop_slice zero p out acc h = ap some (sym (append-nil (out ++ acc)))
copy_loop_slice (suc n) p out acc h =
    let (b, e) = get_elem?-lt out p (omega arith) in
    let seen : get_elem? (out ++ acc) p ≡ some b =
      get_elem?-append_left out acc p (omega arith) ∙ e in
    rw (seen, copy_loop, drop-suc p out e, append_assoc out acc (b ∷ []))
      (copy_loop_slice n (p + 1) out (acc ++ (b ∷ [])) (omega arith) ∙ ap some (simp append_assoc))

-- A copy that fits: between two slices, or inside of one where they do not overlap.
pub copy_from_lem :
    (dst : List ℕ) (d : ℕ) (src : List ℕ) (s n : ℕ)
    → s + n ≤ length src
    → d + n ≤ length dst
    → (out : List ℕ) × (copy_from dst d src s n ≡ next out)
      × (length out ≡ length dst)
      × (take (d + n) out ≡ take d dst ++ take n (drop s src))
unfolding copy_from
copy_from_lem dst d src s n h k =
    let xs = take n (drop s src) in
    let size : length xs ≡ n = omega (arith, length-take n (drop s src), length-drop s src) in
    let (same, prefix) = splice_lem dst d xs (omega (arith, size)) in
    (
      splice dst d xs,
      rw (le→ltb (length src) (s + n) h, le→ltb (length dst) (d + n) k),
      same,
      prefix n (omega (arith, size))
          ∙ ap (λ (ys : List ℕ). take d dst ++ ys) (take-length n xs (omega (arith, size))),
    )

-- When the offset is positive and no more than what is written, and the copy fits, either way of
-- docopy keeps the size of the destination, and shows in its prefix what the copying loop of
-- DecodeBlock appends to the prefix before.
pub either_copy_lem :
    (dst : List ℕ) (d offset n : ℕ)
    → 1 ≤ offset
    → offset ≤ d
    → d + n ≤ length dst
    → (out : List ℕ) × ((if ltb n offset
          then copy_from dst d dst (d - offset) n
          else forward_copy n d (d - offset) dst)
        ≡ next out)
      × (length out ≡ length dst)
      × (copy_loop n (d - offset) (take d dst) ≡ some (take (d + n) out))
either_copy_lem dst d offset n p q r = elim (Bool-cases (ltb n offset)) [
  | inr a ↦
      let (out, e, l, c) = forward_copy_lem n d (d - offset) dst (omega arith) r in
      (out, rw a e, l, c)
  | inl a ↦
      let near : d - offset + n ≤ d = omega (arith, ltb→lt n offset a) in
      let (out, e, l, c) = copy_from_lem dst d dst (d - offset) n (omega arith) r in
      let full : length (take d dst) ≡ d = length-take_le d dst (omega arith) in
      let appended = copy_loop_slice n (d - offset) (take d dst) [] (rw full near) in
      (
        out,
        rw a e,
        l,
        (rw (append-nil, take-drop-take (d - offset) n d dst near) at appended) ∙ ap some (sym c),
      )
]
