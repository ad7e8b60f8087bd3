-- ===== src/Level1/Immediate.antt =====
-- The loop over the matches right behind what was emitted keeps the invariant.
use minlz.Prelude.{ℕ, zero, suc, ◌+◌, ◌-◌, ◌/◌, ◌^◌, ◌≤◌, ◌<◌, ◌≡◌, refl, sym, arith}
use minlz.Prelude.{List, length, All, true, ltb, leb}
use minlz.Prelude.{Bool-cases, inl, inr, ltb→le}
use mathlib.Core.Path.{subst}
use minlz.Bytes.{IsByte, u32}
use minlz.Decode.Machine.{Outcome, ◌>>=◌}
use minlz.Emit.Buffer.{on_tail}
use minlz.Emit.Write.{emit_copy}
use minlz.Reference.Decoder.{max_block_size}
use minlz.Reference.Encoder.{Table, put}
use minlz.Level1.Ends.{Ends, Ends-bind}
use minlz.Level1.Loads.{Agree, Agree-join, Word, Word-low, load64-Word}
use minlz.Level1.Extend.{Forward, extend_forward-Forward}
use minlz.Level1.Advance.{Advance}
use minlz.Level1.Invariant.{
  Agree-IsMatch, IsReady, IsEmitted, IsStep, Advance-IsWritten, moved-IsWritten,
}
use minlz.Level1.SearchRound.{IsVariant, put-lt, is_match-Agree}
use minlz.Level1.Pieces.{copy-Advance}
use minlz.Level1.Search.{Variant, Loop, Step, s_limit, dst_limit, extend_forward}
use minlz.Level1.Found.{immediate_round, immediate}

module _ (src : List ℕ) (room : ℕ) (fits : length src ≤ max_block_size) (bytes : All IsByte src)
    (big : 16 ≤ length src) (roomy : dst_limit src + 19 ≤ room)
    (short : length src ≤ 2 ^ 21 + 65536) (v : Variant) (good : IsVariant src v) where
  -- The variables after a copy up to `e`.
  copied-IsEmitted :
      (l : Loop) (t : Table) (c e most : ℕ) (r : List ℕ × ℕ)
      → IsEmitted src room l
      → ((h : ℕ) → t h < l.s + 1)
      → c < l.s
      → l.s + 4 ≤ e
      → e ≤ length src
      → r.1 ≤ dst_limit src + 19
      → Advance src l.s l.repeat e (l.s - c) l.dst l.d most r
      → IsEmitted src room
          (record { dst = r.0; d = r.1; table = t; s = e; next_emit = e; repeat = l.s - c })
  copied-IsEmitted l t c e most (dst, d) em below behind far inside small a =
      let l' : Loop = record {
        dst = dst;
        d = d;
        table = t;
        s = e;
        next_emit = e;
        repeat = l.s - c;
      } in
      record {
        written =
            Advance-IsWritten src room l l' most em.written
              (subst (λ j. Advance src j l.repeat e (l.s - c) l.dst l.d most (dst, d))
                (sym em.emitted) a)
              (omega arith) inside;
        small = small;
        repeat_le = omega arith;
        emitted = refl;
        started = omega arith;
        below = λ _ h. omega (arith, below h);
      }

  -- The next search begins one further on.
  missed-IsReady :
      (l : Loop) (t : Table)
      → IsEmitted src room l
      → l.s < s_limit src
      → l.d ≤ dst_limit src
      → ((h : ℕ) → t h < l.s + 1)
      → IsReady src room (record l { table = t; s = l.s + 1 })
  missed-IsReady l t em before small below = record {
    written = moved-IsWritten src room l (l.s + 1) t em.written;
    small = omega arith;
    repeat_le = omega (arith, em.repeat_le);
    ordered = omega (arith, em.emitted);
    started = omega arith;
    loads = omega arith;
    below = below;
  }

  -- A match right behind what was emitted, copied; `more` goes on.
  copied-IsStep :
      (more : Loop → Outcome Step) (from c : ℕ) (l : Loop) (t : Table)
      → IsEmitted src room l
      → l.s < s_limit src
      → l.d ≤ dst_limit src
      → c < l.s
      → ((h : ℕ) → t h < l.s + 1)
      → Agree src l.s c 4
      → ((l' : Loop) → IsEmitted src room l' → l.s < l'.s → Ends (IsStep src room from) (more l'))
      → Ends (IsStep src room from) (
          extend_forward (length src) src (l.s + 4) (c + 4) >>= λ e.
          on_tail l.dst l.d (λ tail. emit_copy tail (l.s - c) (e - l.s)) >>= λ r.
          more (record { dst = r.0; d = r.1; table = t; s = e; next_emit = e; repeat = l.s - c }))
  copied-IsStep more from c l t em before limit behind below same go =
      Ends-bind (Forward src (l.s + 4) (c + 4)) (IsStep src room from) _ _
        (extend_forward-Forward (length src) src (l.s + 4) (c + 4) bytes (omega arith) (omega arith)
          (omega arith) (omega arith))
        (λ e g.
          let far = g.forward in
          let inside = g.within in
          let size = em.written.size in
          let four : l.s + 4 - l.s ≡ 4 = omega arith in
          let all : Agree src l.s c (e - l.s) =
            Agree-join src l.s (l.s + 4) e c (c + 4) (omega arith) far (omega arith) (rw four same)
              g.same in
          Ends-bind (Advance src l.s l.repeat e (l.s - c) l.dst l.d 7) (IsStep src room from) _ _
            (copy-Advance src fits l.s l.repeat (l.s - c) e l.dst l.d em.written.has_repeat far
              (omega arith) (Agree-IsMatch src l.s c (e - l.s) behind (omega arith) all)
              (omega arith))
            (λ r a.
              go _
                (copied-IsEmitted l t c e 7 r em below behind far inside (omega (arith, a.near)) a)
                (omega arith)))

  immediate_round-IsStep :
      (more : Loop → Outcome Step) (from : ℕ) (l : Loop)
      → IsEmitted src room l
      → (l.s < s_limit src → from < l.s)
      → ((l' : Loop)
          → IsEmitted src room l'
          → from < l'.s
          → l.s < l'.s
          → Ends (IsStep src room from) (more l'))
      → Ends (IsStep src room from) (immediate_round more v src l)
  unfolding immediate_round
  immediate_round-IsStep more from l em p go = elim (Bool-cases (leb (s_limit src) l.s)) [
    | inl x ↦ rw x (record { written = em.written; small = em.small })
    | inr x ↦
        let before : l.s < s_limit src = ground arith in
        let started = em.started in
        let (w, q, word) = load64-Word src bytes (l.s - 2) (omega arith) in
        elim (Bool-cases (ltb (dst_limit src) l.d)) [
          | inl y ↦ rw (x, q, y) em.written.size
          | inr y ↦
              let limit = ltb→le _ _ y in
              let curr = v.hash (w / 2 ^ 16) in
              let c = l.table curr in
              let behind = em.below before curr in
              let size = em.written.size in
              let t = put (put l.table (v.hash w) (v.entry (l.s - 2))) curr (v.entry l.s) in
              let below : (h : ℕ) → t h < l.s + 1 = λ h.
                put-lt (put l.table (v.hash w) (v.entry (l.s - 2))) curr (v.entry l.s) (l.s + 1) h
                  (λ k.
                    put-lt l.table (v.hash w) (v.entry (l.s - 2)) (l.s + 1) k
                      (λ j. omega (arith, em.below before j))
                      (omega (arith, good.entry_le (l.s - 2))))
                  (omega (arith, good.entry_le l.s)) in
              let two : l.s - 2 + 1 + 1 ≡ l.s = omega arith in
              let shift : w / 256 / 256 ≡ w / 2 ^ 16 = omega arith in
              let word' : Word src l.s (u32 (w / 2 ^ 16)) 4 =
                Word-low src l.s (w / 2 ^ 16) 2 (rw (two, shift) at word.holds.1.1) in
              rw (x, q, y)
                (Ends-bind (λ b. b ≡ true → Agree src l.s c 4) (IsStep src room from) _ _
                  (is_match-Agree v src l.s l.s c (u32 (w / 2 ^ 16)) bytes (omega arith) word')
                  (λ hit f. elim (Bool-cases hit) [
                    | inr z ↦
                        rw z (missed-IsReady l t em before limit below, omega (arith, p before))
                    | inl z ↦ rw z (
                        copied-IsStep more from c l t em before limit behind below (f z)
                          (λ l' em' q. go l' em' (omega (arith, p before)) q))
                  ]))
        ]
  ]

  pub immediate-IsStep :
      (fuel from : ℕ) (l : Loop)
      → IsEmitted src room l
      → (l.s < s_limit src → from < l.s)
      → length src < fuel + l.s
      → l.s ≤ length src
      → Ends (IsStep src room from) (immediate fuel v src l)
  unfolding immediate
  immediate-IsStep zero from l em p f g = absurd (omega arith)
  immediate-IsStep (suc n) from l em p f g =
      immediate_round-IsStep (immediate n v src) from l em p (λ l' em' q r.
        immediate-IsStep n from l' em' (λ _. q) (omega arith)
          (omega (arith, em'.written.bounded, em'.emitted)))
