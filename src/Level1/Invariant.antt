-- ===== src/Level1/Invariant.antt =====
-- What holds of the variables of encodeBlockGo and of encodeBlockGo64K between their parts.
use minlz.Prelude.{ℕ, ◌+◌, ◌-◌, ◌≤◌, ◌<◌, ◌≡◌, ◌∙◌, arith}
use minlz.Prelude.{List, [], length, take}
use minlz.Reference.Encoder.{Table}
use minlz.Reference.RoundTrip.Source.{IsMatch}
use minlz.Reference.RoundTrip.Emits.{Emits, Emits-trans}
use minlz.Level1.Loads.{Agree, Agree-append, Agree-join}
use minlz.Level1.Extend.{Back, Forward}
use minlz.Level1.Advance.{Advance}
use minlz.Level1.Search.{Loop, Step, emit_rest, bail, again, s_limit, dst_limit}
use minlz.Level1.Search.{Search, settled, found}

-- Bytes that agree with earlier ones are a match.
pub Agree-IsMatch :
    (src : List ℕ) (base c len : ℕ)
    → c < base
    → base + len ≤ length src
    → Agree src base c len
    → IsMatch src base (base - c) len
Agree-IsMatch src base c len p q f = record {
  behind = omega arith;
  inside = omega arith;
  within = q;
  same = λ i h. let e : base + i - (base - c) ≡ c + i = omega arith in rw e (f i h);
}

-- Four bytes that agree, extended back.
pub found-Agree :
    (src : List ℕ) (s next_emit candidate c base : ℕ)
    → Agree src s candidate 4
    → Back src next_emit candidate s (c, base)
    → Agree src base c (4 + (s - base))
found-Agree src s next_emit candidate c base four x =
    let low = x.base_le in
    let shift = x.shift in
    let there : base + (s - base) ≡ s = omega arith in
    let there' : c + (s - base) ≡ candidate = omega arith in
    let turn : s - base + 4 ≡ 4 + (s - base) = omega arith in
    rw turn at (Agree-append src base c (s - base) 4 x.same (rw (there, there') four))

-- The match that was found, extended both ways.
pub found-IsMatch :
    (src : List ℕ) (s next_emit candidate c base e : ℕ)
    → candidate < s
    → Agree src s candidate 4
    → Back src next_emit candidate s (c, base)
    → Forward src (base + 4) (c + 4) e
    → IsMatch src base (base - c) (e - base)
found-IsMatch src s next_emit candidate c base e p four x y =
    let low = x.base_le in
    let shift = x.shift in
    let up = y.forward in
    let front = found-Agree src s next_emit candidate c base four x in
    let size : base + 4 - base ≡ 4 = omega arith in
    Agree-IsMatch src base c (e - base) (omega arith) (omega (arith, y.within)) (
      Agree-join src base (base + 4) e c (c + 4) (omega arith) up (omega arith)
        (rw size (λ k h. front k (omega arith))) y.same)

-- For a source and the size of the buffer.
module _ (src : List ℕ) (room : ℕ) where
  -- The first `l.d` bytes of the buffer rebuild `src[:l.next_emit]`.
  pub record IsWritten (l : Loop) : Type 0 where
    pub most : ℕ
    pub emits : Emits src 0 1 l.next_emit l.repeat [] (take l.d l.dst) most
    pub size : length l.dst ≡ room
    pub has_repeat : 1 ≤ l.repeat
    pub bounded : l.next_emit ≤ length src

  -- At the start of a round of the search.
  pub record IsReady (l : Loop) : Type 0 where
    pub written : IsWritten l
    pub small : l.d ≤ dst_limit src + 8
    pub repeat_le : l.repeat ≤ l.s
    pub ordered : l.next_emit ≤ l.s
    pub started : 1 ≤ l.s
    pub loads : l.s + 8 ≤ length src
    pub below : (h : ℕ) → l.table h < l.s

  -- At the label emitRemainder.
  pub record IsLast (l : Loop) : Type 0 where
    pub written : IsWritten l
    pub small : l.d ≤ dst_limit src + 19

  -- At the start of a round over immediate matches. The table may be ahead of `s` only where the
  -- search is over.
  pub record IsEmitted (l : Loop) : Type 0 where
    pub written : IsWritten l
    pub small : l.d ≤ dst_limit src + 19
    pub repeat_le : l.repeat ≤ l.s
    pub emitted : l.next_emit ≡ l.s
    pub started : 2 ≤ l.s
    pub below : l.s < s_limit src → (h : ℕ) → l.table h < l.s

  -- The step goes on behind `s`, or ends.
  abbrev pub IsStep : (s : ℕ) → Step → Type 0
  IsStep s (emit_rest l) = IsLast l
  IsStep s (bail dst) = length dst ≡ room
  IsStep s (again l) = IsReady l × (s < l.s)

  -- A match of four bytes at `l.s` and `c`, found from `s` on.
  pub record IsFound (s c : ℕ) (l : Loop) : Type 0 where
    pub written : IsWritten l
    pub small : l.d ≤ dst_limit src + 8
    pub later : s ≤ l.s
    pub ordered : l.next_emit ≤ l.s
    pub behind : c < l.s
    pub inside : l.s + 4 ≤ length src
    pub same : Agree src l.s c 4
    pub below : (h : ℕ) → l.table h < l.s + 3

  abbrev pub IsHit : (s : ℕ) → Search → Type 0
  IsHit s (settled step) = IsStep s step
  IsHit s (found c l) = IsFound s c l

  -- More was written.
  pub Advance-IsWritten :
      (l l' : Loop) (most : ℕ)
      → IsWritten l
      → Advance src l.next_emit l.repeat l'.next_emit l'.repeat l.dst l.d most (l'.dst, l'.d)
      → 1 ≤ l'.repeat
      → l'.next_emit ≤ length src
      → IsWritten l'
  Advance-IsWritten l l' most w a p q = record {
    most = w.most + most;
    emits =
        Emits-trans src 0 1 l.next_emit l.repeat l'.next_emit l'.repeat [] (take l.d l.dst)
          (take l'.d l'.dst) w.most most w.emits a.emits;
    size = a.size ∙ w.size;
    has_repeat = p;
    bounded = q;
  }

  -- The position and the table do not matter for what was written.
  pub moved-IsWritten :
      (l : Loop) (s : ℕ) (t : Table) → IsWritten l → IsWritten (record l { table = t; s = s })
  moved-IsWritten l s t w = record {
    most = w.most;
    emits = w.emits;
    size = w.size;
    has_repeat = w.has_repeat;
    bounded = w.bounded;
  }
