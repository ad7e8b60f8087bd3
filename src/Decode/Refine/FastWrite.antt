-- ===== src/Decode/Refine/FastWrite.antt =====
-- Fused literals in the first loop of minLZDecodeGo against the reference decoder. They are stored
-- as four bytes there, of which the copy overwrites what is too much.
use minlz.Prelude.{ℕ, ◌+◌, ◌/◌, ◌^◌, ◌≤◌, ◌<◌, ◌≡◌, refl, sym, ◌∙◌, ap, arith}
use minlz.Prelude.{List, [], ◌∷◌, ◌++◌, All, length, length-append, take, drop, get_elem?-lt}
use minlz.Prelude.{ltb, leb, ◌==◌, Bool-cases, inl, inr, true, false, le→ltb}
use minlz.Prelude.Slices.{All-get_elem?, drop-suc, take-append_le}
use minlz.Bytes.{IsByte, le32, le32_lem, u8, put32}
use minlz.Decode.Machine.{next, corrupt, Regs, load8, load32, store32, splice}
use minlz.Decode.Machine.{do_copy, do_copy2}
use minlz.Decode.Fast.{fast_extra}
use minlz.Reference.Reader.{read_n}
use minlz.Reference.Decoder.{copy, State, max_block_size, execute}
use minlz.Reference.Decoder.{put_extra, put_copy, check_dst_size}
use minlz.Decode.Refine.Steps.{Agrees}
use minlz.Decode.Refine.Literals.{SameWrite, fit_lem}
use minlz.Decode.Refine.Round.{SameRound}
use minlz.Decode.Refine.Copies.{splice_lem, length-take_le}

put32-le32 :
    (a b c d : ℕ)
    → IsByte a
    → IsByte b
    → IsByte c
    → IsByte d
    → put32 (le32 a b c d) ≡ a ∷ b ∷ c ∷ d ∷ []
put32-le32 a b c d p q r s =
    let whole = le32_lem a b c d p q r in
    let x : u8 (le32 a b c d) ≡ a = omega (arith, whole) in
    let y : u8 (le32 a b c d / 2 ^ 8) ≡ b = omega (arith, whole) in
    let z : u8 (le32 a b c d / 2 ^ 16) ≡ c = omega (arith, whole) in
    let w : u8 (le32 a b c d / 2 ^ 24) ≡ d = omega (arith, whole) in rw (x, y, z, w)

-- Four bytes of the source, stored at `d`.
store_lem :
    (src dst : List ℕ) (s d : ℕ)
    → All IsByte src
    → s + 4 ≤ length src
    → d + 4 ≤ length dst
    → (w : ℕ) × (out : List ℕ) × (load32 src s ≡ next w)
      × (store32 dst d w ≡ next out)
      × (length out ≡ length dst)
      × ((n : ℕ) → n ≤ 4 → take (d + n) out ≡ take d dst ++ take n (drop s src))
unfolding load32 store32
store_lem src dst s d bytes h k =
    let (a, ea) = get_elem?-lt src s (omega arith) in
    let (b, eb) = get_elem?-lt src (s + 1) (omega arith) in
    let (c, ec) = get_elem?-lt src (s + 2) (omega arith) in
    let (e, ee) = get_elem?-lt src (s + 3) (omega arith) in
    let x1 : s + 1 + 1 ≡ s + 2 = omega arith in
    let x2 : s + 2 + 1 ≡ s + 3 = omega arith in
    let front : drop s src ≡ (a ∷ b ∷ c ∷ e ∷ []) ++ drop (s + 3 + 1) src = rw (
      drop-suc s src ea,
      drop-suc (s + 1) src eb,
      x1,
      drop-suc (s + 2) src ec,
      x2,
      drop-suc (s + 3) src ee,
    ) in
    let four =
      put32-le32 a b c e (All-get_elem? IsByte src s bytes ea)
        (All-get_elem? IsByte src (s + 1) bytes eb) (All-get_elem? IsByte src (s + 2) bytes ec)
        (All-get_elem? IsByte src (s + 3) bytes ee) in
    let (same, prefix) = splice_lem dst d (a ∷ b ∷ c ∷ e ∷ []) (omega arith) in
    (
      le32 a b c e,
      splice dst d (a ∷ b ∷ c ∷ e ∷ []),
      rw (ea, load8, eb, ec, ee),
      rw (le→ltb (length dst) (d + 4) k) (ap (λ (ys : List ℕ). next (splice dst d ys)) four),
      same,
      λ n l.
          prefix n l
          ∙ ap (λ (ys : List ℕ). take d dst ++ ys)
              (sym (take-append_le n (a ∷ b ∷ c ∷ e ∷ []) (drop (s + 3 + 1) src) l) ∙ rw front),
    )

pub do_copy2_lem : (r : Regs) (len : ℕ) → 1 ≤ r.offset → do_copy2 r len ≡ do_copy r len
unfolding do_copy2
do_copy2_lem r len h = let positive : leb r.offset 0 ≡ false = ground arith in rw positive

module _ (want : ℕ) (src : List ℕ) (small : want ≤ max_block_size) (short : length src ≤ want)
    (bytes : All IsByte src) where
  pub fast_extra_write :
      (r : Regs) (st : State) (n o t : ℕ)
      → Agrees want r st
      → 1 ≤ n
      → n ≤ 4
      → 1 ≤ t
      → t + 4 ≤ length src
      → r.d + 4 ≤ want
      → SameWrite want src o st.offset
          (fast_extra src (record r { s = t; offset = o }) n)
          (put_extra want n st (drop t src))
  unfolding fast_extra put_extra
  fast_extra_write r st n o t a p q l k m =
      let r' : Regs = record r { s = t; offset = o } in
      let (check, read) =
        fit_lem src r' st (omega (arith, a.size)) (omega (arith, a.size))
          (omega (arith, a.size, a.within)) a.out l (omega arith) n (omega (arith, a.size))
          (omega arith) in
      let check' : check_dst_size want st.out n ≡ true = rw a.size at check in
      let some_lits : (n == 0) ≡ false = ground arith in
      let room : ltb (length r.dst) (r.d + 4) ≡ false =
        le→ltb (length r.dst) (r.d + 4) (omega (arith, a.size)) in
      let (w, dst, loaded, stored, same, prefix) =
        store_lem src r.dst t r.d bytes k (omega (arith, a.size)) in
      rw (some_lits, room, loaded, stored, read, check')
        (record {
          size = same ∙ a.size;
          within = omega arith;
          out = rw a.out (sym (prefix n q));
          machine = refl;
          reference = refl;
          left = refl;
          position = omega arith;
        })

  -- Fused literals that leave no room for four bytes leave none for the copy either.
  pub overflow :
      (r : Regs) (st : State) (x o n : ℕ) (src' : List ℕ)
      → Agrees want r st
      → 1 ≤ x
      → 4 ≤ n
      → want < r.d + 4
      → SameRound want src corrupt (execute want (copy x o n) st src')
  unfolding execute put_extra put_copy read_n check_dst_size
  overflow r st x o n src' a p q h =
      let some_lits : (x == 0) ≡ false = ground arith in
      let full : length (take r.d r.dst) ≡ r.d =
        length-take_le r.d r.dst (omega (arith, a.size, a.within)) in
      rw some_lits (elim (Bool-cases (leb x (length src'))) [
        | inr b ↦ rw b tt
        | inl b ↦ rw b (elim (Bool-cases (check_dst_size want st.out x)) [
          | inr c ↦ rw c tt
          | inl c ↦
              let read : length (take x src') ≡ x = length-take_le x src' (ground arith) in
              let over : leb (length (st.out ++ take x src') + n) want ≡ false = ground (
                arith,
                full,
                read,
                length-append st.out (take x src'),
                ap (λ (ys : List ℕ). length ys) a.out,
              ) in
              rw (c, over)
                (elim (Bool-cases (ltb n max_block_size)) [ inl d ↦ rw d tt | inr d ↦ rw d tt ])
        ])
      ])

  pub no_extra_write :
      (r : Regs) (st : State) (n o t : ℕ)
      → Agrees want r st
      → t ≤ length src
      → (n == 0) ≡ true
      → SameWrite want src o st.offset
          (fast_extra src (record r { s = t; offset = o }) n)
          (put_extra want n st (drop t src))
  unfolding fast_extra put_extra
  no_extra_write r st n o t a p z = rw z (record {
    size = a.size;
    within = a.within;
    out = a.out;
    machine = refl;
    reference = refl;
    left = refl;
    position = p;
  })

  pub no_room :
      (r : Regs) (n : ℕ) → (n == 0) ≡ false → length r.dst < r.d + 4 → fast_extra src r n ≡ corrupt
  unfolding fast_extra
  no_room r n z h = let full : ltb (length r.dst) (r.d + 4) ≡ true = ground arith in rw (z, full)
