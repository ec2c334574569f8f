-- ===== src/Util/BooleanMatrix/Elimination.antt =====
-- The eliminations of src/util/boolean_matrix.cpp. Every change of the matrix is a `row_operation`.
use qsyn.Prelude.{
  ℕ, zero, suc, ◌+◌, ◌*◌, ◌-◌, ◌/◌, Bool, true, false, not, ◌&&◌, ◌||◌, Option, none, some, List,
  [], ◌∷◌, length, get_or, reverse, ltb, leb, ◌==◌, if◌then◌else◌, for_range, find_from, any_from,
}
use qsyn.Util.BooleanMatrix.{
  Row, BooleanMatrix, num_rows, num_cols, bit_at, row_operation, row_equal,
}

module _ (track : Bool) where
  -- The loop over the rows that clears a column: a row is tested when the loop reaches it.
  unfoldable pub clear_others : ℕ → ℕ → BooleanMatrix → BooleanMatrix
  unfolding for_range
  clear_others row col m =
      for_range (num_rows m) 0
        (λ r m'.
          if not (r == row) && (bit_at m' r col == 1) then row_operation track row r m' else m')
        m

  -- `gaussian_elimination_augmented`, one column: the next pivot row and the matrix.
  unfoldable pub augmented_column : ℕ → ℕ → BooleanMatrix → ℕ × BooleanMatrix
  unfolding clear_others find_from any_from
  augmented_column row col m =
      if not (any_from (num_rows m) 0 (λ r. not (bit_at m r col == 0)))
      then (row, m)
      else if bit_at m row col == 0
      then elim (find_from (num_rows m - row) row (λ r. bit_at m r col == 1)) [
        | none ↦ (row, m)
        | some r ↦ (row + 1, clear_others row col (row_operation track r row m))
      ]
      else (row + 1, clear_others row col m)

  -- The loop over the columns that are variables, from `col` on.
  unfoldable pub augmented_from : ℕ → ℕ → ℕ → BooleanMatrix → ℕ × BooleanMatrix
  unfolding augmented_column
  augmented_from zero col row m = (row, m)
  augmented_from (suc cols) col row m =
      let next = augmented_column row col m in
      let rest = augmented_from cols (col + 1) next.0 next.1 in
      if ltb row (num_rows m) then rest else (row, m)

  abbrev pub back_is_one : BooleanMatrix → ℕ → Bool
  back_is_one m r = bit_at m r (length (get_or m.matrix r []) - 1) == 1

  unfoldable pub gaussian_elimination_augmented : BooleanMatrix → Bool × BooleanMatrix
  unfolding augmented_from
  gaussian_elimination_augmented m =
      let m₀ : BooleanMatrix = record m { row_operations = [] } in
      let done = augmented_from (num_cols m - 1) 0 0 m₀ in
      (not (any_from (num_rows done.1 - done.0) done.0 (back_is_one done.1)), done.1)

  -- `std::views::iota(lo, lo + n)`.
  abbrev pub iota : ℕ → ℕ → List ℕ
  iota zero lo = []
  iota (suc n) lo = lo ∷ iota n (lo + 1)

  -- `get_sub_vec`, whose range begins at `lo` and has `n` entries.
  abbrev pub get_sub_vec : ℕ → ℕ → Row → Row
  get_sub_vec zero lo row = []
  get_sub_vec (suc n) lo row = get_or row lo 0 ∷ get_sub_vec n (lo + 1) row

  -- `duplicated`, the hash map from sections of rows to rows.
  abbrev pub lookup_section : List (Row × ℕ) → Row → Option ℕ
  lookup_section [] row = none
  lookup_section (e ∷ es) row =
      let rest = lookup_section es row in if row_equal e.0 row then some e.1 else rest

  abbrev pub all_zero : Row → Bool
  all_zero [] = true
  all_zero (a ∷ as') = (a == 0) && all_zero as'

  unfoldable pub clear_section_duplicates :
      ℕ → ℕ → List (Row × ℕ) → List ℕ → BooleanMatrix → BooleanMatrix
  clear_section_duplicates lo n seen [] m = m
  clear_section_duplicates lo n seen (r ∷ rs) m =
      let part = get_sub_vec n lo (get_or m.matrix r []) in
      if all_zero part
      then clear_section_duplicates lo n seen rs m
      else elim (lookup_section seen part) [
        | none ↦ clear_section_duplicates lo n ((part, r) ∷ seen) rs m
        | some c ↦ clear_section_duplicates lo n seen rs (row_operation track c r m)
      ]

  unfoldable pub clear_all_1s_in_column : ℕ → ℕ → List ℕ → BooleanMatrix → BooleanMatrix
  clear_all_1s_in_column pivot col [] m = m
  clear_all_1s_in_column pivot col (r ∷ rs) m =
      clear_all_1s_in_column pivot col rs
        (if bit_at m r col == 1 then row_operation track pivot r m else m)

  -- One column of a section. The pivot columns are a stack, the last one on top.
  abbrev pub skip_column : ℕ → BooleanMatrix × List ℕ → BooleanMatrix × List ℕ
  skip_column col (m, pivots) =
      let k = length pivots in
      elim (find_from (num_rows m - k) k (λ r. bit_at m r col == 1)) [
        | none ↦ (m, pivots)
        | some r ↦
            let m₁ = if r == k then m else row_operation track r k m in
            (clear_all_1s_in_column k col (iota (num_rows m - suc k) (k + 1)) m₁, col ∷ pivots)
      ]

  abbrev pub section_begin : ℕ → ℕ → ℕ
  section_begin block idx = idx * block

  abbrev pub section_size : ℕ → ℕ → BooleanMatrix → ℕ
  section_size block idx m =
      let last = (idx + 1) * block in
      (if ltb (num_cols m) last then num_cols m else last) - idx * block

  -- A section of the echelon form.
  unfoldable pub skip_section : ℕ → ℕ → BooleanMatrix × List ℕ → BooleanMatrix × List ℕ
  unfolding for_range clear_section_duplicates
  skip_section block idx (m, pivots) =
      let lo = section_begin block idx in
      let n = section_size block idx m in
      let k = length pivots in
      for_range n lo skip_column
        (clear_section_duplicates lo n [] (iota (num_rows m - k) k) m, pivots)

  -- The `while` loop of the back substitution.
  unfoldable pub reduce_pivots : ℕ → ℕ → List ℕ → BooleanMatrix → BooleanMatrix × List ℕ
  unfolding clear_all_1s_in_column
  reduce_pivots lo n [] m = (m, [])
  reduce_pivots lo n (p ∷ ps) m =
      let rest =
        reduce_pivots lo n ps (clear_all_1s_in_column (length ps) p (iota (length ps) 0) m) in
      if leb lo p && ltb p (lo + n) then rest else (m, p ∷ ps)

  -- The sections below `idx`, the last first, until no pivot is left.
  unfoldable pub reduce_sections : ℕ → ℕ → List ℕ → BooleanMatrix → BooleanMatrix
  unfolding reduce_pivots clear_section_duplicates
  reduce_sections block zero pivots m = m
  reduce_sections block (suc idx) pivots m =
      let lo = section_begin block idx in
      let n = section_size block idx m in
      let m₁ = clear_section_duplicates lo n [] (reverse (iota (length pivots) 0)) m in
      let next = reduce_pivots lo n pivots m₁ in
      let rest = reduce_sections block idx next.1 next.0 in
      elim next.1 [ [] ↦ next.0 | p ∷ ps ↦ rest ]

  abbrev pub n_sections : ℕ → BooleanMatrix → ℕ
  n_sections block m = (num_cols m + (block - 1)) / block

  unfoldable pub gaussian_elimination_skip : ℕ → Bool → BooleanMatrix → ℕ × BooleanMatrix
  unfolding skip_section reduce_sections
  gaussian_elimination_skip block do_fully_reduced m =
      let echelon = for_range (n_sections block m) 0 (skip_section block) (m, []) in
      let rank = length echelon.1 in
      (
        rank,
        if not do_fully_reduced || (rank == 0)
            then echelon.0
            else reduce_sections block (n_sections block m) echelon.1 echelon.0,
      )

-- `matrix_rank`, on a copy.
unfoldable pub matrix_rank : BooleanMatrix → ℕ
unfolding gaussian_elimination_skip
matrix_rank m = (gaussian_elimination_skip false (num_cols m) false m).0
