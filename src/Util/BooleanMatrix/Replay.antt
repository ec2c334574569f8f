-- ===== src/Util/BooleanMatrix/Replay.antt =====
-- The recorded operations of a BooleanMatrix lead from the rows at the start to those at the end.
use qsyn.Prelude.{ℕ, ◌≡◌, ◌∙◌, refl, ap, Bool, true, List, [], ◌∷◌, ◌++◌, leb, if_ind}
use qsyn.Util.BooleanMatrix.{Row, BooleanMatrix, num_rows, row_operation, add_rows}
use qsyn.Util.BooleanMatrix.Elimination.{gaussian_elimination_augmented, gaussian_elimination_skip}
use qsyn.Util.BooleanMatrix.Record.{
  Keeps, gaussian_elimination_augmented-keeps, gaussian_elimination_skip-keeps,
}

-- The recorded operations, replayed on rows.
unfoldable pub replay : List (ℕ × ℕ) → List Row → List Row
replay [] rows = rows
replay ((c, t) ∷ ops) rows = replay ops (add_rows rows c t)

replay-append :
    (ops ops' : List (ℕ × ℕ)) (rows : List Row)
    → replay (ops ++ ops') rows ≡ replay ops' (replay ops rows)
unfolding replay
replay-append [] ops' rows = refl
replay-append ((c, t) ∷ ops) ops' rows = replay-append ops ops' (add_rows rows c t)

abbrev pub Replays : List Row → BooleanMatrix → Type 0
Replays rows m = replay m.row_operations rows ≡ m.matrix

row_operation-Replays : (rows : List Row) → Keeps true (Replays rows)
unfolding row_operation
row_operation-Replays rows c t m h =
    if_ind (Replays rows) (leb (num_rows m) c) (λ e. h)
      (λ e.
        if_ind (Replays rows) (leb (num_rows m) t) (λ e'. h)
          (λ e'.
            replay-append m.row_operations ((c, t) ∷ []) rows
            ∙ (unfold replay in ap (λ u. add_rows u c t) h)))

-- With tracking, the operations recorded by the augmented elimination, replayed on the rows that it
-- was given, lead to the rows that it leaves.
pub replay-gaussian_elimination_augmented :
    (m : BooleanMatrix)
    → replay (gaussian_elimination_augmented true m).1.row_operations m.matrix
      ≡ (gaussian_elimination_augmented true m).1.matrix
replay-gaussian_elimination_augmented m =
    gaussian_elimination_augmented-keeps true (Replays m.matrix)
      (λ c t m' ne h. row_operation-Replays m.matrix c t m' h) m (unfold replay in refl)

-- With tracking, when the operations recorded before lead from some rows to the rows of a matrix,
-- those recorded after an elimination by sections lead from them to the rows that it leaves.
pub replay-gaussian_elimination_skip :
    (rows : List Row) (block : ℕ) (full : Bool) (m : BooleanMatrix)
    → replay m.row_operations rows ≡ m.matrix
    → replay (gaussian_elimination_skip true block full m).1.row_operations rows
      ≡ (gaussian_elimination_skip true block full m).1.matrix
replay-gaussian_elimination_skip rows block full m h =
    gaussian_elimination_skip-keeps true (Replays rows) (row_operation-Replays rows) block full m h
