-- ===== src/Stream/Frames.antt =====
-- A stream as a list of chunks, against the loop of ReadStream (internal/reference/stream.go).
use minlz.Prelude.{ℕ, zero, suc, ◌^◌, ◌<◌, ◌≤◌, ◌≡◌, refl, arith, List, [], ◌∷◌}
use minlz.Prelude.{
  ◌++◌, All, sym, take, drop, if◌then◌else◌, length, length-append, take-append, drop-append, leb,
  le→leb,
}
use mathlib.Core.Path.{subst}
use minlz.Bytes.{put24, le24, le24-put24}
use minlz.Stream.Result.{Read, value, failed, panics, stuck, ◌>>=◌, truncated}
use minlz.Stream.Read.{State, initial, read_chunk, read_loop, read_stream}

-- The type of a chunk and its data.
pub record Chunk : Type 0 where
  pub kind : ℕ
  pub body : List ℕ

-- The bytes of chunks: the type, the length in three bytes, the data.
abbrev pub serialize : List Chunk → List ℕ
serialize [] = []
serialize (c ∷ cs) = c.kind ∷ (put24 (length c.body) ++ (c.body ++ serialize cs))

-- One chunk after the other, up to the first that is refused.
abbrev pub accept : (crc : List ℕ → ℕ) → State → List Chunk → Read State
accept crc st [] = value st
accept crc st (c ∷ cs) = read_chunk crc st c.kind c.body >>= λ st'. accept crc st' cs

bind-congr :
    {A : Type 0} {B : Type 0} (m : Read A) (f g : A → Read B)
    → ((a : A) → f a ≡ g a)
    → (m >>= f) ≡ (m >>= g)
bind-congr (value a) f g h = h a
bind-congr (failed e) f g h = refl
bind-congr panics f g h = refl
bind-congr stuck f g h = refl

-- A round of the loop, at a chunk of `k` bytes.
pub read_loop-chunk :
    (n : ℕ) (crc : List ℕ → ℕ) (st : State) (kind x y z k : ℕ) (b : List ℕ)
    → le24 x y z ≡ k
    → k ≤ length b
    → read_loop (suc n) crc st (kind ∷ x ∷ y ∷ z ∷ b)
      ≡ (read_chunk crc st kind (take k b) >>= λ st'. read_loop n crc st' (drop k b))
unfolding read_loop
read_loop-chunk n crc st kind x y z k b e h =
    subst
      (λ (j : ℕ).
        (if leb j (length b)
          then (read_chunk crc st kind (take j b) >>= λ st'. read_loop n crc st' (drop j b))
          else failed truncated)
        ≡ (read_chunk crc st kind (take k b) >>= λ st'. read_loop n crc st' (drop k b)))
      (sym e) (rw (le→leb k (length b) h) refl)

read_loop-serialize :
    (n : ℕ) (crc : List ℕ → ℕ) (st : State) (cs : List Chunk)
    → All (λ c. length c.body < 2 ^ 24) cs
    → length (serialize cs) < n
    → read_loop n crc st (serialize cs) ≡ accept crc st cs
read_loop-serialize zero crc st cs h p = absurd (omega arith)
read_loop-serialize (suc n) crc st [] h p = unfold read_loop in refl
read_loop-serialize (suc n) crc st (c ∷ cs) h p =
    let size = length-append c.body (serialize cs) in
    rw
      (
        read_loop-chunk n crc st c.kind _ _ _ (length c.body) (c.body ++ serialize cs)
            (le24-put24 (length c.body) h.0) (omega (arith, size)),
        take-append c.body (serialize cs),
        drop-append c.body (serialize cs),
      )
      (bind-congr (read_chunk crc st c.kind c.body) _ _
        (λ st'. read_loop-serialize n crc st' cs h.1 (omega (arith, size, p))))

-- On every sequence of chunks, each with less than 2^24 bytes of data, written one behind the other,
-- ReadStream does with each chunk in turn what the switch on its type does, with the state that the
-- chunks before it left, and ends as the first chunk that it does not accept says, or with nil.
pub read_stream-serialize :
    (crc : List ℕ → ℕ) (cs : List Chunk)
    → All (λ c. length c.body < 2 ^ 24) cs
    → read_stream crc (serialize cs) ≡ accept crc initial cs
unfolding read_stream
read_stream-serialize crc cs h =
    read_loop-serialize (suc (length (serialize cs))) crc initial cs h (omega arith)
