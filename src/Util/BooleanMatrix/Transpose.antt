-- ===== src/Util/BooleanMatrix/Transpose.antt =====
-- `transpose` of a BooleanMatrix, by its bits.
use qsyn.Prelude.{ℕ, zero, suc, ◌+◌, ◌<◌, ◌≡◌, ◌∙◌, ap, List, [], map, get_or, get_or-map, arith}
use qsyn.Util.BooleanMatrix.{Row, BooleanMatrix, num_cols, bit_at, transpose, transpose_from}

get_or-transpose_from :
    (cols lo c : ℕ) (rows : List Row)
    → c < cols
    → get_or (transpose_from cols lo rows) c [] ≡ map (λ r. get_or r (lo + c) 0) rows
unfolding transpose_from
get_or-transpose_from zero lo c rows h = absurd (omega arith)
get_or-transpose_from (suc cols) lo zero rows h =
    ap (λ k. map (λ r. get_or r k 0) rows) (omega arith)
get_or-transpose_from (suc cols) lo (suc c) rows h =
    get_or-transpose_from cols (lo + 1) c rows (omega arith)
    ∙ ap (λ k. map (λ r. get_or r k 0) rows) (omega arith)

-- The entry of the transposed matrix at a column of the matrix and any row is the entry of the matrix
-- at that row and column.
pub bit_at-transpose :
    (m : BooleanMatrix) (c r : ℕ) → c < num_cols m → bit_at (transpose m) c r ≡ bit_at m r c
unfolding transpose
bit_at-transpose m c r h =
    ap (λ row. get_or row r 0) (get_or-transpose_from (num_cols m) 0 c m.matrix h)
    ∙ ap (λ k. get_or (map (λ row. get_or row k 0) m.matrix) r 0) (omega arith)
    ∙ get_or-map m.matrix (λ row. get_or row c 0) r []
