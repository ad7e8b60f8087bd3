-- ===== src/Index/Headers.antt =====
-- RemoveIndexHeaders and RestoreIndexHeaders of index.go.
use minlz.Prelude.{ℕ, ◌+◌, ◌-◌, ◌/◌, ◌^◌, ◌≤◌, ◌<◌, ◌≡◌, refl, sym, ◌∙◌, arith, true, false}
use minlz.Prelude.{
  List, [], ◌∷◌, ◌++◌, append_assoc, length, length-append, take, drop, take-length, drop-append,
}
use minlz.Prelude.{ltb, leb, ◌==◌, not, if◌then◌else◌}
use minlz.Prelude.Slices.{take-append_le}
use minlz.Bytes.{u8, le24, put24, put32, le24-put24, le24_lem}
use minlz.Index.Format.{index_header, index_trailer}
use minlz.Index.Binary.{equal}

-- `nil` is the return of nil, and `panics` a slice expression out of bounds.
pub data Removed : Type 0 where
  removed : List ℕ → Removed
  nil panics : Removed

-- RemoveIndexHeaders behind the chunk's header and the signature: the trailer and the size.
unfoldable pub remove_trailer : List ℕ → Removed
unfolding equal
remove_trailer b =
    let m = length b - 6 in
    if ltb (length b) 6
    then nil
    else if not (equal (drop m b) index_trailer)
    then nil
    else if ltb m 4
    then nil
    else removed (take (m - 4) b)

-- RemoveIndexHeaders behind the first four bytes, with the length that they give. `b[:6]` is taken
-- from the bytes of the slice's capacity, and `b[6:]` from the `n` bytes of the chunk.
unfoldable pub remove_chunk : (n : ℕ) → List ℕ → Removed
unfolding equal remove_trailer
remove_chunk n b =
    if ltb (length b) n
    then nil
    else if not (equal (take 6 b) index_header)
    then nil
    else if ltb n 6
    then panics
    else remove_trailer (drop 6 (take n b))

unfoldable pub remove_index_headers : List ℕ → Removed
unfolding remove_chunk le24
remove_index_headers (t ∷ x ∷ y ∷ z ∷ b) =
    if leb (length b) 16 then nil else if t == 64 then remove_chunk (le24 x y z) b else nil
remove_index_headers b = nil

unfoldable pub restore_index_headers : List ℕ → List ℕ
restore_index_headers [] = []
restore_index_headers (x ∷ xs) =
    let size = length (x ∷ xs) in
    64 ∷ (put24 (size + 16) ++ (index_header ++ ((x ∷ xs) ++ (put32 (size + 20) ++ index_trailer))))

remove_trailer_lem :
    (xs : List ℕ) (n : ℕ) → remove_trailer (xs ++ (put32 n ++ index_trailer)) ≡ removed xs
unfolding remove_trailer equal
remove_trailer_lem xs n =
    let tail = put32 n ++ index_trailer in
    let whole : length (xs ++ tail) ≡ length xs + 10 = length-append xs tail in
    let front : length (xs ++ put32 n) ≡ length xs + 4 = length-append xs (put32 n) in
    let regroup : xs ++ tail ≡ (xs ++ put32 n) ++ index_trailer =
      sym (append_assoc xs (put32 n) index_trailer) in
    let at : length xs + 10 - 6 ≡ length (xs ++ put32 n) = omega (arith, front) in
    let long : ltb (length xs + 10) 6 ≡ false = ground arith in
    let end : drop (length xs + 10 - 6) (xs ++ tail) ≡ index_trailer =
      rw (at, regroup) (drop-append (xs ++ put32 n) index_trailer) in
    let room : ltb (length xs + 10 - 6) 4 ≡ false = ground arith in
    let kept : length xs + 10 - 6 - 4 ≡ length xs = omega arith in
    let same : take (length xs) (xs ++ tail) ≡ xs =
      take-append_le (length xs) xs tail (omega arith) ∙ take-length (length xs) xs (omega arith) in
    rw (remove_trailer, whole, long, end, room, kept, same) refl

-- Every slice that is not empty and fits a chunk comes back from RestoreIndexHeaders and
-- RemoveIndexHeaders after it.
pub remove_index_headers-restore_index_headers :
    (x : ℕ) (xs : List ℕ)
    → length (x ∷ xs) + 16 < 2 ^ 24
    → remove_index_headers (restore_index_headers (x ∷ xs)) ≡ removed (x ∷ xs)
unfolding remove_index_headers restore_index_headers remove_chunk equal
remove_index_headers-restore_index_headers x xs h =
    let ys = x ∷ xs in
    let size = length ys in
    let tail = put32 (size + 20) ++ index_trailer in
    let b = index_header ++ (ys ++ tail) in
    let whole : length b ≡ size + 16 = omega (arith, length-append ys tail) in
    let n : le24 (u8 (size + 16)) (u8 ((size + 16) / 2 ^ 8)) (u8 ((size + 16) / 2 ^ 16))
        ≡ size + 16 =
      le24-put24 (size + 16) h in
    let long : leb (length b) 16 ≡ false = ground (arith, whole) in
    let inside : ltb (length b) (size + 16) ≡ false = ground (arith, whole) in
    let big : ltb (size + 16) 6 ≡ false = ground arith in
    let all : take (size + 16) b ≡ b = take-length (size + 16) b (omega (arith, whole)) in
    rw (remove_index_headers, long, n, inside, big, all) (remove_trailer_lem ys (size + 20))

-- For every chunk of an index that gives less than 6 bytes as its length, with the signature and at
-- least 11 bytes behind it, RemoveIndexHeaders panics: it reads the signature past the chunk's end.
pub remove_index_headers-panics :
    (n : ℕ) (rest : List ℕ)
    → n < 6
    → 11 ≤ length rest
    → remove_index_headers (64 ∷ n ∷ 0 ∷ 0 ∷ (index_header ++ rest)) ≡ panics
unfolding remove_index_headers remove_chunk equal
remove_index_headers-panics n rest h k =
    let b = index_header ++ rest in
    let len : le24 n 0 0 ≡ n = rw (le24_lem n 0 0 (omega arith) (omega arith)) (omega arith) in
    let long : leb (length b) 16 ≡ false = ground arith in
    let inside : ltb (length b) n ≡ false = ground arith in
    let short : ltb n 6 ≡ true = ground arith in
    rw (remove_index_headers, long, len, inside, short) refl
