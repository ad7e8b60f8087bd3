-- ===== src/Level2/Invariant.antt =====
-- What holds of the variables of encodeBlockBetterGo and of encodeBlockBetterGo64K between their
-- parts; most of it is the invariant of the fastest encoder.
use minlz.Prelude.{ℕ, ◌+◌, ◌^◌, ◌≤◌, ◌<◌, ◌≡◌, List, length, take, drop, true}
use minlz.Reference.RoundTrip.Source.{IsMatch}
use minlz.Emit.Buffer.{on_tail}
use minlz.Level1.Ends.{Ends}
use minlz.Level1.Loads.{Agree}
use minlz.Level1.Advance.{Advance}
use minlz.Level1.Invariant
use minlz.Level1.Search.{dst_limit}
use minlz.Level2.Tables.{Variant}
use minlz.Level2.Search.{Better, Step, emit_rest, bail, again, Search, settled, found}

-- What the two functions share: the entries of the tables, the reach of a candidate, and the fused
-- copies, which are emitted like any others.
pub record IsVariant (src : List ℕ) (v : Variant) : Type 0 where
  pub entry_le : (x : ℕ) → v.entry x ≤ x
  pub from_near : (s c : ℕ) → s < length src → v.is_from s c ≡ true → s < c + (65536 + 2 ^ 21)
  pub after_near : (s c : ℕ) → s < length src → v.is_after s c ≡ true → s + 1 < c + (65536 + 2 ^ 21)
  pub fuse :
      (n k last offset len : ℕ) (dst : List ℕ) (d : ℕ)
      → 1 ≤ last
      → 1 ≤ k
      → v.is_fused k offset ≡ true
      → offset < 65536 + 2 ^ 21
      → 4 ≤ len
      → IsMatch src (n + k) offset len
      → d + 11 ≤ length dst
      → Ends
          (Advance src n last (n + k + len) offset dst d 11)
          (on_tail dst d (λ tail. v.emit_fused tail (take k (drop n src)) offset len))

module _ (src : List ℕ) (room : ℕ) where
  pub record IsReady (b : Better) : Type 0 where
    pub ready : Invariant.IsReady src room b.loop
    pub short_below : (h : ℕ) → b.short h < b.loop.s

  -- The step goes on behind `s`, or ends.
  abbrev pub IsStep : (s : ℕ) → Step → Type 0
  IsStep s (emit_rest l) = Invariant.IsLast src room l
  IsStep s (bail dst) = length dst ≡ room
  IsStep s (again b) = IsReady b × (s < b.loop.s)

  -- A match of four bytes at `b.loop.s` and `c`, found from `s` on.
  pub record IsFound (s c next_s : ℕ) (b : Better) : Type 0 where
    pub written : Invariant.IsWritten src room b.loop
    pub small : b.loop.d ≤ dst_limit src + 8
    pub later : s ≤ b.loop.s
    pub ordered : b.loop.next_emit ≤ b.loop.s
    pub repeat_le : b.loop.repeat ≤ b.loop.s
    pub next_later : s < next_s
    pub next_le : b.loop.s ≤ next_s
    pub behind : c < b.loop.s
    pub near : b.loop.s < c + (65536 + 2 ^ 21)
    pub inside : b.loop.s + 4 ≤ length src
    pub same : Agree src b.loop.s c 4
    pub below : (h : ℕ) → b.loop.table h < b.loop.s + 2
    pub below_next : (h : ℕ) → b.loop.table h < next_s + 1
    pub short_below : (h : ℕ) → b.short h < b.loop.s + 1

  abbrev pub IsHit : (s : ℕ) → Search → Type 0
  IsHit s (settled step) = IsStep s step
  IsHit s (found c next_s b) = IsFound s c next_s b
