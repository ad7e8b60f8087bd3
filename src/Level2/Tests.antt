-- ===== src/Level2/Tests.antt =====
-- A concrete run of the balanced encoder, and its lemma at a concrete source.
use minlz.Prelude.{replicate, arith}
use minlz.Level1.Ends.{Ends}
use minlz.Level1.RoundTrip.{IsBody}
use minlz.Level1.Tests.{text}
use minlz.Level2.Encode.{encode_block_better}
use minlz.Level2.RoundTrip.{encode_block_better-IsBody}

encode_block_better-IsBody_example :
    Ends (IsBody text (replicate 64 0)) (encode_block_better (replicate 64 0) text)
encode_block_better-IsBody_example =
    encode_block_better-IsBody (replicate 64 0) text (omega arith) (omega arith) (omega arith)
