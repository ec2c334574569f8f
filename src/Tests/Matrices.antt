-- ===== src/Tests/Matrices.antt =====
-- Boolean matrices at concrete inputs.
use qsyn.Prelude.{zero, suc, ◌≡◌, ◌↔◌, refl, arith, true, [], ◌∷◌}
use qsyn.Util.BooleanMatrix.{BooleanMatrix, of_rows}
use qsyn.Util.BooleanMatrix.Elimination.{gaussian_elimination_augmented}
use qsyn.Util.BooleanMatrix.Replay.{replay, replay-gaussian_elimination_augmented}
use qsyn.Util.BooleanMatrix.Solutions.{Solves, IsRectangular, Solves-gaussian_elimination_augmented}

abbrev three_rows : BooleanMatrix
three_rows = of_rows ((0 ∷ 1 ∷ 1 ∷ []) ∷ (1 ∷ 1 ∷ 0 ∷ []) ∷ (1 ∷ 0 ∷ 1 ∷ []) ∷ [])

three_rows-IsRectangular : IsRectangular 3 three_rows.matrix
unfolding IsRectangular
three_rows-IsRectangular zero h = refl
three_rows-IsRectangular (suc zero) h = refl
three_rows-IsRectangular (suc (suc zero)) h = refl
three_rows-IsRectangular (suc (suc (suc i))) h = absurd (omega arith)

replay-gaussian_elimination_augmented_example :
    replay (gaussian_elimination_augmented true three_rows).1.row_operations three_rows.matrix
    ≡ (gaussian_elimination_augmented true three_rows).1.matrix
replay-gaussian_elimination_augmented_example = replay-gaussian_elimination_augmented three_rows

Solves-gaussian_elimination_augmented_example :
    Solves (true ∷ true ∷ true ∷ []) (gaussian_elimination_augmented true three_rows).1.matrix
    ↔ Solves (true ∷ true ∷ true ∷ []) three_rows.matrix
Solves-gaussian_elimination_augmented_example =
    Solves-gaussian_elimination_augmented true 3 (true ∷ true ∷ true ∷ []) three_rows
      three_rows-IsRectangular
