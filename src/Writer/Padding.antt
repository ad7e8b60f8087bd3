-- ===== src/Writer/Padding.antt =====
-- The padding that Close of writer.go adds: calcSkippableFrame, then skippableFrame.
use native.Mathlib.Nat.{mod-lt, mod_self, mod-add-mod, add-mod_right, add_assoc}
use minlz.Prelude.{ℕ, zero, suc, ◌+◌, ◌-◌, ◌%◌, ◌≤◌, ◌<◌, ◌≡◌, ◌⊎◌, refl, sym, ◌∙◌, ap, arith}
use minlz.Prelude.{List, [], ◌∷◌, ◌++◌, append-nil, All, length, Option, none, some, false}
use minlz.Prelude.{ltb, leb, ◌==◌, ==_iff, Bool-cases, Option-cases, inl, inr, ltb→le}
use minlz.Bytes.{put24}
use minlz.Reference.Decoder.{max_block_size}
use minlz.Level1.Ends.{Ends, Ends-weaken}
use minlz.Stream.Frames.{Chunk, serialize}
use minlz.Writer.Frame.{
  at_least, calc_skippable_frame, Framed, framed, too_short, too_long, unread, skippable_frame,
}

-- `n` more bytes: none, or enough for the header of a chunk, up to a multiple.
abbrev pub Pads : (written want_multiple n : ℕ) → Type 0
Pads w m n = ((w + n) % m ≡ 0) × ((n ≡ 0) ⊎ (4 ≤ n)) × (n < m + 4)

at_least-Pads :
    (fuel w m a : ℕ)
    → 1 ≤ m
    → 4 ≤ fuel + a
    → a < m + 4
    → (w + a) % m ≡ 0
    → Ends (Pads w m) (at_least fuel m a)
unfolding at_least
at_least-Pads zero w m a p q r h =
    let enough : ltb a 4 ≡ false = ground arith in rw enough (h, inr (omega arith), r)
at_least-Pads (suc n) w m a p q r h = elim (Bool-cases (ltb a 4)) [
  | inr e ↦ rw e (h, inr (ltb→le a 4 e), r)
  | inl e ↦ rw e (
      at_least-Pads n w m (a + m) p (omega arith) (ground arith)
        (rw (← add_assoc w a m) (add-mod_right (w + a) m ∙ h)))
]

calc_skippable_frame-Pads : (w m : ℕ) → 1 ≤ m → Ends (Pads w m) (calc_skippable_frame w m)
unfolding calc_skippable_frame
calc_skippable_frame-Pads w m p =
    let positive : (m == 0) ≡ false = ground arith in
    elim (Bool-cases (w % m == 0)) [
      | inl e ↦
          let same : w + 0 ≡ w = omega arith in
          rw (positive, e) (ap (λ j. j % m) same ∙ (==_iff _ _).0 e, inl refl, omega arith)
      | inr e ↦
          let below = mod-lt w {m = m} (omega arith) in
          let sum : w % m + (m - w % m) ≡ m = omega arith in
          let whole : (w + (m - w % m)) % m ≡ 0 =
            sym (mod-add-mod w m (m - w % m)) ∙ (ap (λ j. j % m) sum ∙ mod_self m) in
          rw (positive, e) (at_least-Pads 4 w m (m - w % m) p (omega arith) (omega arith) whole)
    ]

-- What is written for a padding of `n` bytes.
abbrev pub IsPadding : (read_full : ℕ → Option (List ℕ)) (w m n : ℕ) → Framed → Type 0
IsPadding read_full w m n (framed b) =
    (length b ≡ n)
    × ((w + length b) % m ≡ 0)
    × ((cs : List Chunk) × (b ≡ serialize cs) × All (λ c. c.kind ≡ 254) cs)
IsPadding read_full w m n unread = read_full (n - 4) ≡ none
IsPadding read_full w m n too_short = ⊥
IsPadding read_full w m n too_long = ⊥

skippable_frame-IsPadding :
    (read_full : ℕ → Option (List ℕ)) (w m n : ℕ)
    → ((k : ℕ) (bytes : List ℕ) → read_full k ≡ some bytes → length bytes ≡ k)
    → m ≤ max_block_size
    → Pads w m n
    → IsPadding read_full w m n (skippable_frame read_full [] n)
unfolding skippable_frame
skippable_frame-IsPadding read_full w m n reads fits (h, l, r) = elim l [
  | inl z ↦ rw z (refl, rw z at h, ([], refl, tt))
  | inr four ↦
      let some_bytes : (n == 0) ≡ false = ground arith in
      let long : ltb n 4 ≡ false = ground arith in
      let short : leb (max_block_size + 4) n ≡ false = ground arith in
      elim (Option-cases (read_full (n - 4))) [
        | inl e ↦ rw (some_bytes, long, short, e) e
        | inr (bytes, e) ↦
            let size = reads (n - 4) bytes e in
            let frame = 254 ∷ (put24 (n - 4) ++ bytes) in
            let all : length frame ≡ n = omega (arith, size) in
            rw (some_bytes, long, short, e)
              (
                all,
                (ap (λ j. (w + j) % m) all ∙ h),
                (record { kind = 254; body = bytes } ∷ [], rw (size, append-nil) refl, (refl, tt)),
              )
      ]
]

-- For every number of bytes that were written, every multiple from 1 to 8 MiB and every source of
-- the padding, which gives as many bytes as it is asked for or an error: calcSkippableFrame ends
-- without a panic, and skippableFrame does not refuse the size that it returns. With that size it
-- returns nothing or one padding chunk (0xfe), which with its header fills what was written up to
-- the multiple, unless the source fails.
pub calc_skippable_frame-IsPadding :
    (read_full : ℕ → Option (List ℕ)) (written want_multiple : ℕ)
    → ((k : ℕ) (bytes : List ℕ) → read_full k ≡ some bytes → length bytes ≡ k)
    → 1 ≤ want_multiple
    → want_multiple ≤ max_block_size
    → Ends
        (λ n. IsPadding read_full written want_multiple n (skippable_frame read_full [] n))
        (calc_skippable_frame written want_multiple)
calc_skippable_frame-IsPadding read_full w m reads p fits =
    Ends-weaken (Pads w m) _ _ (calc_skippable_frame-Pads w m p)
      (λ n h. skippable_frame-IsPadding read_full w m n reads fits h)
