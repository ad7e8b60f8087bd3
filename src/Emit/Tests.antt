-- ===== src/Emit/Tests.antt =====
-- The emissions at concrete inputs.
use minlz.Prelude.{ℕ, ◌+◌, ◌≤◌, List, [], ◌∷◌, ◌++◌, replicate, length, drop, ◌≡◌, arith}
use minlz.Reference.Emit
use minlz.Reference.Reader.{ok}
use minlz.Decode.Machine.{next}
use minlz.Emit.Write.{
  emit_literal, emit_copy, emit_copy_lits2, emit_copy_lits3, emit_literal_size_n,
}
use minlz.Emit.Same.{wrote, emit_by_offset, emit_copy-emit_by_offset}
use minlz.Emit.SameLiterals.{emit_literal-emit_literals, emit_literal_size_n_lem}
use minlz.Emit.SameFused.{emit_copy_lits2-emit_copy_lits2, emit_copy_lits3-emit_copy3}

abbrev buffer : List ℕ
buffer = replicate 12 0

emit_copy-emit_by_offset_example :
    (code : List ℕ) × (emit_by_offset 500 900 ≡ ok code)
    × (emit_copy buffer 500 900 ≡ next (code ++ drop (length code) buffer, length code))
emit_copy-emit_by_offset_example =
    emit_copy-emit_by_offset buffer 500 900 (omega arith) (omega arith) (omega arith) (omega arith)

emit_literal-emit_literals_example :
    emit_literal buffer (7 ∷ 8 ∷ 9 ∷ []) ≡ wrote (Emit.emit_literals [] (7 ∷ 8 ∷ 9 ∷ [])) buffer
emit_literal-emit_literals_example =
    emit_literal-emit_literals buffer (7 ∷ 8 ∷ 9 ∷ []) (omega arith) (omega arith) (omega arith)

emit_literal_size_n_lem_example :
    (out : List ℕ) × (n : ℕ) × (emit_literal buffer (7 ∷ 8 ∷ 9 ∷ []) ≡ next (out, n))
    × (n ≤ 3 + emit_literal_size_n 3)
    × (3 + emit_literal_size_n 3 ≤ n + 1)
emit_literal_size_n_lem_example =
    emit_literal_size_n_lem buffer (7 ∷ 8 ∷ 9 ∷ []) (omega arith) (omega arith) (omega arith)

emit_copy_lits2-emit_copy_lits2_example :
    emit_copy_lits2 buffer (7 ∷ 8 ∷ []) 2000 50
    ≡ wrote (Emit.emit_copy_lits2 [] (7 ∷ 8 ∷ []) 2000 50) buffer
emit_copy_lits2-emit_copy_lits2_example =
    emit_copy_lits2-emit_copy_lits2 buffer (7 ∷ 8 ∷ []) 2000 50 (omega arith)

emit_copy_lits3-emit_copy3_example :
    (code : List ℕ) × (Emit.emit_copy3 [] 70000 500 (7 ∷ 8 ∷ []) ≡ ok code)
    × (emit_copy_lits3 buffer (7 ∷ 8 ∷ []) 70000 500 ≡ wrote code buffer)
emit_copy_lits3-emit_copy3_example =
    emit_copy_lits3-emit_copy3 buffer (7 ∷ 8 ∷ []) 70000 500 (omega arith) (omega arith)
      (omega arith) (omega arith) (omega arith)
