-- ===== src/Reference/RoundTrip/Replay.antt =====
-- The effect of an operation's bytes on the decoder's state.
use minlz.Prelude.{ℕ, ◌+◌, ◌-◌, ◌≤◌, ◌<◌, ◌≡◌, refl, sym, ◌∙◌, ap, arith}
use minlz.Prelude.{List, [], ◌∷◌, ◌++◌, append_assoc, append-nil, length, length-append, some}
use minlz.Prelude.{true, false, ◌==◌, le→leb, le→ltb, take-append, drop-append}
use minlz.Reference.Reader.{ok, read_n}
use minlz.Reference.Decoder.{Command, State, step, execute, copy_loop}
use minlz.Reference.Decoder.{check_dst_size, put_literals, put_extra, put_copy, max_block_size}
use minlz.Reference.Total.{IsValid}
use minlz.Reference.Run.{run_all, run_all-cons}
use minlz.Reference.Codes.Literal.{Encodes}

-- `bs` takes the decoder of `want` bytes from `st` to `st'`, whatever follows.
abbrev pub Decodes : (want : ℕ) → State → List ℕ → State → Type 0
Decodes want st bs st' = (rest : List ℕ) → run_all want st (bs ++ rest) ≡ run_all want st' rest

pub Decodes-nil : (want : ℕ) (st : State) → Decodes want st [] st
Decodes-nil want st rest = refl

pub Decodes-trans :
    (want : ℕ) (r s t : State) (xs bs : List ℕ)
    → Decodes want r xs s
    → Decodes want s bs t
    → Decodes want r (xs ++ bs) t
Decodes-trans want r s t xs bs f g rest = rw append_assoc (f (bs ++ rest) ∙ g rest)

check_dst_size_lem :
    (want : ℕ) (out : List ℕ) (n : ℕ)
    → n < max_block_size
    → length out + n ≤ want
    → check_dst_size want out n ≡ true
unfolding check_dst_size
check_dst_size_lem want out n p q = ground arith

read_n-append : (xs rest : List ℕ) → read_n (length xs) (xs ++ rest) ≡ some (xs, rest)
unfolding read_n
read_n-append xs rest = rw (
  le→leb (length xs) (length (xs ++ rest)) (rw length-append (omega arith)),
  take-append,
  drop-append,
)

pub put_literals_lem :
    (want : ℕ) (st : State) (lits rest : List ℕ)
    → length lits < max_block_size
    → length st.out + length lits ≤ want
    → put_literals want (length lits) st (lits ++ rest)
      ≡ ok (record st { out = st.out ++ lits }, rest)
unfolding put_literals
put_literals_lem want st lits rest p q =
    rw (check_dst_size_lem want st.out (length lits) p q, read_n-append)

pub put_extra_lem :
    (want : ℕ) (st : State) (lits rest : List ℕ)
    → length lits < max_block_size
    → length st.out + length lits ≤ want
    → put_extra want (length lits) st (lits ++ rest) ≡ ok (record st { out = st.out ++ lits }, rest)
unfolding put_extra
put_extra_lem want st [] rest p q =
    ap (λ o. ok (record { out = o; offset = st.offset }, rest)) (sym (append-nil st.out))
put_extra_lem want st (b ∷ lits) rest p q =
    let some_left : (length (b ∷ lits) == 0) ≡ false = ground arith in
    rw (
      some_left,
      read_n-append (b ∷ lits) rest,
      check_dst_size_lem want st.out (length (b ∷ lits)) p q,
    )

pub put_copy_lem :
    (want offset len : ℕ) (st : State) (out : List ℕ)
    → len < max_block_size
    → length st.out + len ≤ want
    → offset ≤ length st.out
    → copy_loop len (length st.out - offset) st.out ≡ some out
    → put_copy want offset len st ≡ ok (record { out = out; offset = offset })
unfolding put_copy
put_copy_lem want offset len st out p q r e =
    rw (check_dst_size_lem want st.out len p q, le→ltb (length st.out) offset r, e)

-- A command whose header is `bs`, executed on what follows the header.
pub Decodes-command :
    (want : ℕ) (st st' : State) (c : Command) (bs lits : List ℕ)
    → IsValid want st
    → Encodes st.offset c bs
    → ((rest : List ℕ) → execute want c st (lits ++ rest) ≡ ok (st', rest))
    → Decodes want st (bs ++ lits) st'
Decodes-command want st st' c [] lits v e x rest = cc (e [])
Decodes-command want st st' c (b ∷ bs) lits v e x rest =
    run_all-cons want b st st' ((bs ++ lits) ++ rest) rest v
      (unfold step in rw (append_assoc, e (lits ++ rest)) (x rest))
