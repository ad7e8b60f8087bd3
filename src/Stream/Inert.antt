-- ===== src/Stream/Inert.antt =====
-- What ReadStream (internal/reference/stream.go) accepts as long as no stream identifier was read.
use minlz.Prelude.{ℕ, suc, ◌<◌, ◌≤◌, ◌≡◌, ◌≢◌, ◌⊎◌, inl, inr, refl, arith, List, [], ◌∷◌}
use minlz.Prelude.{true, some, Option-cases, Bool-cases, length, ltb, leb, ◌==◌}
use minlz.Prelude.{==_iff, take, drop, ltb→lt}
use minlz.Reference.Header.{decode_block}
use minlz.Block.Header.{uvarint}
use minlz.Index.State.{Index as SeekIndex}
use minlz.Index.Binary.{equal}
use minlz.Index.Format.{index_header, Loaded, loaded, corrupt, unexpected_eof, unsupported}
use minlz.Stream.Result.{Read, value, failed, panics, stuck, ◌>>=◌}
use minlz.Stream.Load.{Index, load_index_after_header}
use minlz.Stream.SameLoad.{Same, SameIndex, read_body-Same}
use minlz.Stream.Read.{
  State, initial, verify_checksum, split_checksum, decode_chunk, check_size, read_uncompressed,
  read_minlz_block, read_minlz_comp_crc, read_eof, read_stream_id, read_chunk,
}
use minlz.Stream.Ends.{Ends, Ends-bind, Ends-weaken, Ends-if, decode_chunk-Ends}
use minlz.Stream.Frames.{Chunk}

-- With no block size read, no block of a byte or more is accepted, whatever it decodes to.
check_size-Ends :
    (x : ℕ) (chunk out : List ℕ) → Ends (λ r. ⊥) ⊥ (check_size initial (x ∷ chunk) out)
unfolding check_size
check_size-Ends x chunk [] =
    let larger : ltb 0 (suc (length chunk)) ≡ true = ground arith in rw larger tt
check_size-Ends x chunk (y ∷ out) =
    let large : ltb 0 (suc (length out)) ≡ true = ground arith in
    rw large (
      Ends-if (λ r. ⊥) ⊥ (ltb (suc (length out)) (suc (length chunk))) (failed _) (failed _)
        (λ e. tt) (λ e. tt))

decode_chunk-refused :
    (chunk : List ℕ) (f : List ℕ → Read State)
    → Ends
        (λ st. ⊥)
        ⊥
        (decode_chunk chunk >>= λ out. check_size initial chunk out >>= λ decoded. f decoded)
decode_chunk-refused [] f = unfold decode_chunk in unfold decode_block in tt
decode_chunk-refused (x ∷ chunk) f =
    Ends-bind (λ out. Unit {0}) (λ st. ⊥) ⊥ _ _ (decode_chunk-Ends (x ∷ chunk))
      λ out h. Ends-bind (λ r. ⊥) (λ st. ⊥) ⊥ _ _ (check_size-Ends x chunk out) (λ r z. absurd z)

read_minlz_block-Ends :
    (crc : List ℕ → ℕ) (body : List ℕ) → Ends (λ st. ⊥) ⊥ (read_minlz_block crc initial body)
unfolding read_minlz_block split_checksum
read_minlz_block-Ends crc [] = tt
read_minlz_block-Ends crc (a ∷ []) = tt
read_minlz_block-Ends crc (a ∷ b ∷ []) = tt
read_minlz_block-Ends crc (a ∷ b ∷ c ∷ []) = tt
read_minlz_block-Ends crc (a ∷ b ∷ c ∷ d ∷ chunk) = decode_chunk-refused chunk _

read_minlz_comp_crc-Ends :
    (crc : List ℕ → ℕ) (body : List ℕ) → Ends (λ st. ⊥) ⊥ (read_minlz_comp_crc crc initial body)
unfolding read_minlz_comp_crc split_checksum
read_minlz_comp_crc-Ends crc [] = tt
read_minlz_comp_crc-Ends crc (a ∷ []) = tt
read_minlz_comp_crc-Ends crc (a ∷ b ∷ []) = tt
read_minlz_comp_crc-Ends crc (a ∷ b ∷ c ∷ []) = tt
read_minlz_comp_crc-Ends crc (a ∷ b ∷ c ∷ d ∷ chunk) =
    Ends-if (λ st. ⊥) ⊥ (verify_checksum crc chunk _) _ (failed _)
      (λ e. decode_chunk-refused chunk _) (λ e. tt)

read_uncompressed-Ends :
    (crc : List ℕ → ℕ) (body : List ℕ)
    → Ends (λ st. (st ≡ initial) × (length body ≡ 4)) ⊥ (read_uncompressed crc initial body)
unfolding read_uncompressed split_checksum
read_uncompressed-Ends crc [] = tt
read_uncompressed-Ends crc (a ∷ []) = tt
read_uncompressed-Ends crc (a ∷ b ∷ []) = tt
read_uncompressed-Ends crc (a ∷ b ∷ c ∷ []) = tt
read_uncompressed-Ends crc (a ∷ b ∷ c ∷ d ∷ []) =
    Ends-if _ ⊥ (verify_checksum crc [] _) (value initial) (failed _) (λ e. (refl, refl)) (λ e. tt)
read_uncompressed-Ends crc (a ∷ b ∷ c ∷ d ∷ x ∷ chunk) =
    let large : ltb 0 (suc (length chunk)) ≡ true = ground arith in
    rw large
      (Ends-if _ ⊥ (verify_checksum crc (x ∷ chunk) _) (failed _) (failed _) (λ e. tt) (λ e. tt))

-- The data of an EOF chunk is missing, or is the size 0.
abbrev pub IsZeroSize : List ℕ → Type 0
IsZeroSize body = (length body ≡ 0) ⊎ ((n : ℕ) × (uvarint 0 0 body ≡ some (0, n)))

read_eof-Ends :
    (body : List ℕ) → Ends (λ st. (st ≡ initial) × IsZeroSize body) ⊥ (read_eof initial body)
unfolding read_eof
read_eof-Ends body =
    Ends-if _ ⊥ (ltb 10 (length body)) (failed _) _ (λ e. tt)
      λ p.
        Ends-if _ ⊥ (length body == 0) (value initial) _ (λ e. (refl, inl ((==_iff _ _).0 e)))
          λ q. elim (Option-cases (uvarint 0 0 body)) [
            | inl e ↦ rw e tt
            | inr ((want, n), e) ↦ rw e (
                Ends-if _ ⊥ (n == length body) _ (failed _)
                  (λ r.
                    Ends-if _ ⊥ (want == 0) (value initial) (failed _)
                      (λ z. (refl, inr (n, rw ((==_iff _ _).0 z) refl))) (λ z. tt))
                  (λ r. tt))
          ]

read_stream_id-Ends :
    (body : List ℕ) → Ends (λ st. ⊥) (length body ≡ 4) (read_stream_id initial body)
unfolding read_stream_id
read_stream_id-Ends body = elim (Bool-cases (length body == 4)) [
  | inr e ↦ rw e tt
  | inl e ↦
      let four : length body ≡ 4 = (==_iff _ _).0 e in
      let short : ltb (length body) 5 ≡ true = ground arith in rw (e, short) four
]

Same-Ends :
    (m : Loaded (SeekIndex × List ℕ)) (n : Read Index) (Q : Type 0)
    → Same SameIndex m n
    → Ends (λ i. Unit {0}) Q n
Same-Ends m (value i) Q h = tt
Same-Ends m (failed e) Q h = tt
Same-Ends (loaded a) panics Q h = elim h [ ]
Same-Ends corrupt panics Q h = elim h [ ]
Same-Ends unexpected_eof panics Q h = elim h [ ]
Same-Ends unsupported panics Q h = elim h [ ]
Same-Ends (loaded a) stuck Q h = h
Same-Ends corrupt stuck Q h = h
Same-Ends unexpected_eof stuck Q h = h
Same-Ends unsupported stuck Q h = h

load_index_after_header-Ends :
    (body : List ℕ) → Ends (λ i. Unit {0}) (length body < 6) (load_index_after_header body)
unfolding load_index_after_header
load_index_after_header-Ends body =
    Ends-if _ (length body < 6) (ltb (length body) 6) panics _ (λ e. ltb→lt _ _ e)
      λ e.
        Ends-if _ (length body < 6) (equal (take 6 body) index_header) _ (failed _)
          (λ f. Same-Ends _ _ (length body < 6) (read_body-Same (drop 6 body))) (λ f. tt)

-- A chunk that is skipped (an older compressed block, or of a type from 64 on that is no stream
-- identifier), one of uncompressed data with no byte behind its checksum, or the end of a stream of
-- size 0.
abbrev pub IsInert : Chunk → Type 0
IsInert c =
    ((c.kind ≡ 0) ⊎ ((64 ≤ c.kind) × (c.kind ≢ 255)))
    ⊎ (((c.kind ≡ 1) × (length c.body ≡ 4)) ⊎ ((c.kind ≡ 32) × IsZeroSize c.body))

-- A stream identifier of four bytes, or an index of less than six.
abbrev pub IsFatal : Chunk → Type 0
IsFatal c = ((c.kind ≡ 255) × (length c.body ≡ 4)) ⊎ ((c.kind ≡ 64) × (length c.body < 6))

pub read_chunk-Ends :
    (crc : List ℕ → ℕ) (c : Chunk)
    → Ends (λ st. (st ≡ initial) × IsInert c) (IsFatal c) (read_chunk crc initial c.kind c.body)
unfolding read_chunk
read_chunk-Ends crc c =
    let P = λ (st : State). (st ≡ initial) × IsInert c in
    let Q = IsFatal c in
    Ends-if P Q (c.kind == 0) _ _ (λ e. (refl, inl (inl ((==_iff _ _).0 e))))
      λ k0.
        Ends-if P Q (c.kind == 1) _ _
          (λ e.
            Ends-weaken P Q _ ⊥ _ (read_uncompressed-Ends crc c.body)
              (λ st h. (h.0, inr (inl ((==_iff _ _).0 e, h.1)))) (λ z. absurd z))
          λ k1.
            Ends-if P Q (c.kind == 2) _ _
              (λ e.
                Ends-weaken P Q (λ st. ⊥) ⊥ _ (read_minlz_block-Ends crc c.body) (λ st h. absurd h)
                  (λ z. absurd z))
              λ k2.
                Ends-if P Q (c.kind == 3) _ _
                  (λ e.
                    Ends-weaken P Q (λ st. ⊥) ⊥ _ (read_minlz_comp_crc-Ends crc c.body)
                      (λ st h. absurd h) (λ z. absurd z))
                  λ k3.
                    Ends-if P Q (c.kind == 32) _ _
                      (λ e.
                        Ends-weaken P Q _ ⊥ _ (read_eof-Ends c.body)
                          (λ st h. (h.0, inr (inr ((==_iff _ _).0 e, h.1)))) (λ z. absurd z))
                      λ k4.
                        Ends-if P Q (c.kind == 255) _ _
                          (λ e.
                            Ends-weaken P Q (λ st. ⊥) _ _ (read_stream_id-Ends c.body)
                              (λ st h. absurd h) (λ z. inl ((==_iff _ _).0 e, z)))
                          λ k5.
                            Ends-if P Q (c.kind == 64) _ _
                              (λ e.
                                Ends-bind (λ i. Unit {0}) P Q (load_index_after_header c.body)
                                  (λ i. value initial)
                                  (Ends-weaken (λ i. Unit {0}) Q _ _ _
                                    (load_index_after_header-Ends c.body) (λ i h. tt)
                                    (λ z. inr ((==_iff _ _).0 e, z)))
                                  (λ i h. (
                                    refl,
                                    inl (inr (omega (arith, (==_iff _ _).0 e), ground arith)),
                                  )))
                              λ k6.
                                Ends-if P Q (leb c.kind 63) (failed _) _ (λ e. tt)
                                  (λ e. (refl, inl (inr (ground arith, ground arith))))
