-- ===== src/Decode/Refine/Literals.antt =====
-- The literals of minLZDecodeGo, alone or fused to a copy, against those of the reference decoder.
use minlz.Prelude.{ℕ, ◌+◌, ◌≤◌, ◌≡◌, refl, sym, arith}
use minlz.Prelude.{List, ◌++◌, some, length, take, drop, length-drop}
use minlz.Prelude.{
  ltb, leb, ◌==◌, ◌||◌, true, false, Bool-cases, Option-cases, ◌⊎◌, none, inl, inr, le→leb,
}
use minlz.Prelude.Slices.{drop-drop}
use minlz.Reference.Reader.{Result, ok, err, read_n}
use minlz.Reference.Decoder.{State, max_block_size, check_dst_size, put_literals, put_extra}
use minlz.Decode.Machine.{Outcome, next, corrupt, Regs, copy_from, do_literals}
use minlz.Decode.Checked.{checked_extra}
use minlz.Decode.Refine.Copies.{copy_from_lem, length-take_le}

-- The registers and the reference decoder's state, when the switch has set the offset already: the
-- machine has `o` and the reference decoder still has `p`. `rest` is what is left of the source.
pub record Written (want : ℕ) (src : List ℕ) (o p : ℕ) (r : Regs) (st : State) (rest : List ℕ)
    : Type 0 where
  pub size : length r.dst ≡ want
  pub within : r.d ≤ want
  pub out : st.out ≡ take r.d r.dst
  pub machine : r.offset ≡ o
  pub reference : st.offset ≡ p
  pub left : rest ≡ drop r.s src
  pub position : r.s ≤ length src

abbrev pub SameWrite :
    (want : ℕ) (src : List ℕ) (o p : ℕ) → Outcome Regs → Result (State × List ℕ) → Type 0
SameWrite want src o p (next r) (ok (st, rest)) = Written want src o p r st rest
SameWrite want src o p corrupt (err e) = Unit {0}
SameWrite want src o p _ _ = ⊥

module _ (src : List ℕ) (r : Regs) (st : State) (small : length r.dst ≤ max_block_size)
    (short : length src ≤ length r.dst) (within : r.d ≤ length r.dst)
    (out : st.out ≡ take r.d r.dst) (started : 1 ≤ r.s) (position : r.s ≤ length src) where
  full : length st.out ≡ r.d
  full = rw out (length-take_le r.d r.dst within)

  -- The tests of `n` bytes, when they fit both slices.
  pub fit_lem :
      (n : ℕ)
      → r.d + n ≤ length r.dst
      → r.s + n ≤ length src
      → (check_dst_size (length r.dst) st.out n ≡ true)
        × (read_n n (drop r.s src) ≡ some (take n (drop r.s src), drop (r.s + n) src))
  unfolding check_dst_size read_n
  fit_lem n h k = (
    ground (arith, full),
    (let enough : leb n (length (drop r.s src)) ≡ true =
          le→leb n (length (drop r.s src)) (omega (arith, length-drop r.s src)) in
        rw (enough, drop-drop n r.s src)),
  )

  -- What the machine writes is what the reference decoder appends.
  wrote_lem :
      (n : ℕ)
      → r.d + n ≤ length r.dst
      → r.s + n ≤ length src
      → (dst : List ℕ) × (copy_from r.dst r.d src r.s n ≡ next dst)
        × Written
            (length r.dst)
            src
            r.offset
            st.offset
            (record r { dst = dst; d = r.d + n; s = r.s + n })
            (record st { out = st.out ++ take n (drop r.s src) })
            (drop (r.s + n) src)
  wrote_lem n h k =
      let (dst, e, l, c) = copy_from_lem r.dst r.d src r.s n k h in
      (
        dst,
        e,
        record {
          size = l;
          within = h;
          out = rw out (sym c);
          machine = refl;
          reference = refl;
          left = refl;
          position = k;
        },
      )

  -- The tests of `n` bytes, when they do not.
  refused :
      (n : ℕ)
      → (ltb (length r.dst) (r.d + n) || ltb (length src) (r.s + n)) ≡ true
      → (check_dst_size (length r.dst) st.out n ≡ false) ⊎ (read_n n (drop r.s src) ≡ none)
  unfolding check_dst_size read_n
  refused n h = elim (Bool-cases (ltb (length r.dst) (r.d + n))) [
    | inl a ↦ inl (ground (arith, full))
    | inr a ↦
        let past : ltb (length src) (r.s + n) ≡ true = rw a at h in
        let few : leb n (length (drop r.s src)) ≡ false = ground (arith, length-drop r.s src) in
        inr (rw few)
  ]

  accepted :
      (n : ℕ)
      → (ltb (length r.dst) (r.d + n) || ltb (length src) (r.s + n)) ≡ false
      → (r.d + n ≤ length r.dst) × (r.s + n ≤ length src)
  accepted n h = ground arith

  pub literals_SameWrite :
      (n : ℕ)
      → SameWrite
          (length r.dst)
          src
          r.offset
          st.offset
          (do_literals src r n)
          (put_literals (length r.dst) n st (drop r.s src))
  unfolding do_literals put_literals
  literals_SameWrite n =
      elim (Bool-cases (ltb (length r.dst) (r.d + n) || ltb (length src) (r.s + n))) [
        | inl a ↦ rw a (elim (refused n a) [
          | inl b ↦ rw b tt
          | inr b ↦ rw b (elim (Bool-cases (check_dst_size (length r.dst) st.out n)) [
            | inl c ↦ rw c tt
            | inr c ↦ rw c tt
          ])
        ])
        | inr a ↦
            let (room, there) = accepted n a in
            let (check, read) = fit_lem n room there in
            let (dst, e, w) = wrote_lem n room there in rw (e, a, check, read) w
      ]

  pub checked_extra-SameWrite :
      (n : ℕ)
      → SameWrite
          (length r.dst)
          src
          r.offset
          st.offset
          (checked_extra src r n)
          (put_extra (length r.dst) n st (drop r.s src))
  unfolding checked_extra put_extra
  checked_extra-SameWrite n = elim (Bool-cases (n == 0)) [
    | inl z ↦ rw z (record {
      size = refl;
      within = within;
      out = out;
      machine = refl;
      reference = refl;
      left = refl;
      position = position;
    })
    | inr z ↦ rw z (elim (Bool-cases (ltb (length r.dst) (r.d + n) || ltb (length src) (r.s + n))) [
      | inl a ↦ rw a (elim (refused n a) [
        | inr b ↦ rw b tt
        | inl b ↦ rw b (elim (Option-cases (read_n n (drop r.s src))) [
          | inl c ↦ rw c tt
          | inr (c, q) ↦ rw q tt
        ])
      ])
      | inr a ↦
          let (room, there) = accepted n a in
          let (check, read) = fit_lem n room there in
          let (dst, e, w) = wrote_lem n room there in rw (e, a, read, check) w
    ])
  ]
