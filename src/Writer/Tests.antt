-- ===== src/Writer/Tests.antt =====
-- The padding and the identifier of writer.go on inputs that can be read.
use minlz.Prelude.{ℕ, ◌≡◌, List, [], ◌∷◌, ◌++◌, Option, some, length, arith}
use minlz.Prelude.{replicate, length-replicate, refl, ap, sym, ◌∙◌}
use minlz.Level1.Ends.{Ends}
use minlz.Stream.Result.{failed, id_length}
use minlz.Stream.Read.{read_stream}
use minlz.Writer.Frame.{calc_skippable_frame, skippable_frame, make_header, framed}
use minlz.Writer.Padding.{IsPadding, calc_skippable_frame-IsPadding}
use minlz.Writer.Header.{read_stream-make_header}

abbrev zeros : ℕ → Option (List ℕ)
zeros k = some (replicate k 0)

zeros-length : (k : ℕ) (bytes : List ℕ) → zeros k ≡ some bytes → length bytes ≡ k
zeros-length k bytes e =
    let same : replicate k 0 ≡ bytes = cc in ap length (sym same) ∙ length-replicate k 0

-- Five bytes are a header and one byte from the source.
short_by_one : skippable_frame zeros [] 5 ≡ framed (254 ∷ 1 ∷ 0 ∷ 0 ∷ 0 ∷ [])
unfolding skippable_frame
short_by_one = refl

calc_skippable_frame-IsPadding_example :
    Ends (λ n. IsPadding zeros 7 4 n (skippable_frame zeros [] n)) (calc_skippable_frame 7 4)
calc_skippable_frame-IsPadding_example =
    calc_skippable_frame-IsPadding zeros 7 4 zeros-length (omega arith) (omega arith)

read_stream-make_header_example :
    read_stream (λ bytes. 0) (make_header 4096 ++ (32 ∷ 0 ∷ 0 ∷ 0 ∷ [])) ≡ failed id_length
read_stream-make_header_example = read_stream-make_header (λ bytes. 0) 4096 (32 ∷ 0 ∷ 0 ∷ 0 ∷ [])
