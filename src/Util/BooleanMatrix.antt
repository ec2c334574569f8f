-- ===== src/Util/BooleanMatrix.antt =====
-- class BooleanMatrix (src/util/boolean_matrix.{hpp,cpp}): rows of bits with their recorded row
-- operations, and the two eliminations. A byte of a row is a number, and a read out of range is 0.
pub mod Elimination
pub mod Record
pub mod Replay
pub mod Solutions
pub mod Transpose
use qsyn.Prelude.{
  ℕ, zero, suc, ◌+◌, ◌*◌, ◌%◌, ◌-◌, ◌/◌, Bool, true, false, not, ◌&&◌, ◌||◌, Option, none, some,
  List, [], ◌∷◌, ◌++◌, length, get_or, set, replicate, ltb, leb, ◌==◌, if◌then◌else◌,
}

abbrev pub Row : Type 0
Row = List ℕ

-- `Row::operator+=`, where the source asserts that the sizes agree.
unfoldable pub row_add : Row → Row → Row
row_add [] bs = []
row_add (a ∷ as') [] = a ∷ as'
row_add (a ∷ as') (b ∷ bs) = (a + b) % 2 ∷ row_add as' bs

-- `Row::operator*=` by a byte and by a row.
unfoldable pub row_scale : Row → ℕ → Row
row_scale [] k = []
row_scale (a ∷ as') k = (a * k) % 2 ∷ row_scale as' k

unfoldable pub row_mul : Row → Row → Row
row_mul [] bs = []
row_mul (a ∷ as') [] = a ∷ as'
row_mul (a ∷ as') (b ∷ bs) = (a * b) % 2 ∷ row_mul as' bs

-- `Row::is_zeros`, `Row::is_one_hot`, `Row::sum` and `Row::operator==`.
unfoldable pub is_zeros : Row → Bool
is_zeros [] = true
is_zeros (a ∷ as') = not (a == 1) && is_zeros as'

unfoldable pub is_one_hot : Row → Bool
unfolding is_zeros
is_one_hot [] = false
is_one_hot (a ∷ as') = let rest = is_one_hot as' in if a == 1 then is_zeros as' else rest

unfoldable pub sum : Row → ℕ
sum [] = 0
sum (a ∷ as') = let rest = sum as' in if a == 1 then suc rest else rest

unfoldable pub row_equal : Row → Row → Bool
row_equal [] [] = true
row_equal [] (b ∷ bs) = false
row_equal (a ∷ as') [] = false
row_equal (a ∷ as') (b ∷ bs) = (a == b) && row_equal as' bs

pub record BooleanMatrix : Type 0 where
  pub matrix : List Row
  pub row_operations : List (ℕ × ℕ)

abbrev pub num_rows : BooleanMatrix → ℕ
num_rows m = length m.matrix

abbrev pub num_cols : BooleanMatrix → ℕ
num_cols m = length (get_or m.matrix 0 [])

abbrev pub bit_at : BooleanMatrix → ℕ → ℕ → ℕ
bit_at m r c = get_or (get_or m.matrix r []) c 0

-- `_matrix[targ] += _matrix[ctrl]`.
abbrev pub add_rows : List Row → ℕ → ℕ → List Row
add_rows rows ctrl targ = set rows targ (row_add (get_or rows targ []) (get_or rows ctrl []))

-- `row_operation`: the matrix afterwards; it returns `true` when both indices are in range.
unfoldable pub row_operation : Bool → ℕ → ℕ → BooleanMatrix → BooleanMatrix
row_operation track ctrl targ m =
    if leb (num_rows m) ctrl then m else if leb (num_rows m) targ then m else record {
      matrix = add_rows m.matrix ctrl targ;
      row_operations = if track then m.row_operations ++ ((ctrl, targ) ∷ []) else m.row_operations;
    }

-- `find_row`: the first row that is equal, from the index `i` on.
unfoldable pub find_row_from : ℕ → List Row → Row → Option ℕ
find_row_from i [] row = none
find_row_from i (r ∷ rs) row =
    let rest = find_row_from (i + 1) rs row in if row_equal r row then some i else rest

-- `push_zeros_column`, `push_zeros_row`, `push_row` and `erase_row`.
unfoldable pub push_zeros_column : BooleanMatrix → BooleanMatrix
push_zeros_column m = record m { matrix = qsyn.Prelude.map (λ r. r ++ (0 ∷ [])) m.matrix }

unfoldable pub push_row : BooleanMatrix → Row → BooleanMatrix
push_row m r = record m { matrix = m.matrix ++ (r ∷ []) }

unfoldable pub push_zeros_row : BooleanMatrix → BooleanMatrix
push_zeros_row m = record m { matrix = m.matrix ++ (replicate (num_cols m) 0 ∷ []) }

-- `vstack`, `hstack`, `transpose` and `identity`. The results have no recorded operations.
abbrev pub of_rows : List Row → BooleanMatrix
of_rows rows = record { matrix = rows; row_operations = [] }

unfoldable pub vstack : BooleanMatrix → BooleanMatrix → BooleanMatrix
vstack a b =
    if num_rows b == 0 then a else if num_rows a == 0 then b else of_rows (a.matrix ++ b.matrix)

unfoldable pub hstack_rows : List Row → List Row → List Row
hstack_rows [] bs = []
hstack_rows (a ∷ as') [] = a ∷ as'
hstack_rows (a ∷ as') (b ∷ bs) = (a ++ b) ∷ hstack_rows as' bs

unfoldable pub hstack : BooleanMatrix → BooleanMatrix → BooleanMatrix
unfolding hstack_rows
hstack a b =
    if num_cols b == 0
    then a
    else if num_cols a == 0
    then b
    else of_rows (hstack_rows a.matrix b.matrix)

unfoldable pub transpose_from : ℕ → ℕ → List Row → List Row
transpose_from zero c rows = []
transpose_from (suc cols) c rows =
    qsyn.Prelude.map (λ r. get_or r c 0) rows ∷ transpose_from cols (c + 1) rows

unfoldable pub transpose : BooleanMatrix → BooleanMatrix
unfolding transpose_from
transpose m = of_rows (transpose_from (num_cols m) 0 m.matrix)
