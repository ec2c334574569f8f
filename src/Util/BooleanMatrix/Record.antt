-- ===== src/Util/BooleanMatrix/Record.antt =====
-- What every row operation keeps, the eliminations keep.
use qsyn.Prelude.{
  ℕ, zero, suc, ◌+◌, ◌-◌, ◌≡◌, ◌≢◌, ap, Bool, true, not, ◌&&◌, ◌||◌, List, [], ◌∷◌, length, get_or,
  reverse, ltb, leb, ◌==◌, ==_iff, arith, for_range, for_range_inv, if_ind, option_ind,
  find_from_bounds, find_from, any_from,
}
use qsyn.Util.BooleanMatrix.{Row, BooleanMatrix, num_rows, num_cols, bit_at, row_operation}
use qsyn.Util.BooleanMatrix.Elimination.{
  clear_others, augmented_column, augmented_from, gaussian_elimination_augmented, iota, get_sub_vec,
  lookup_section, all_zero, clear_section_duplicates, clear_all_1s_in_column, skip_column,
  skip_section, reduce_pivots, reduce_sections, gaussian_elimination_skip, section_begin,
  section_size, n_sections,
}

-- A property that an operation keeps, when the two rows differ.
abbrev pub KeepsRow : Bool → (BooleanMatrix → Type 0) → Type 0
KeepsRow track P = (c t : ℕ) (m : BooleanMatrix) → c ≢ t → P m → P (row_operation track c t m)

abbrev pub Keeps : Bool → (BooleanMatrix → Type 0) → Type 0
Keeps track P = (c t : ℕ) (m : BooleanMatrix) → P m → P (row_operation track c t m)

abbrev First : (BooleanMatrix → Type 0) → BooleanMatrix × List ℕ → Type 0
First P st = P st.0

abbrev Second : (BooleanMatrix → Type 0) → ℕ × BooleanMatrix → Type 0
Second P st = P st.1

two_bits :
    (m : BooleanMatrix) (r row col : ℕ)
    → r ≡ row
    → (bit_at m r col == 1) ≡ true
    → (bit_at m row col == 0) ≡ true
    → ⊥
two_bits m r row col same one zero_there =
    let at_r : bit_at m r col ≡ 1 = (==_iff (bit_at m r col) 1).0 one in
    let at_row : bit_at m row col ≡ 0 = (==_iff (bit_at m row col) 0).0 zero_there in
    omega (arith, at_r, at_row, ap (λ q. bit_at m q col) same)

module _ (track : Bool) (P : BooleanMatrix → Type 0) (keep : KeepsRow track P) where
  clear_others-keeps : (row col : ℕ) (m : BooleanMatrix) → P m → P (clear_others track row col m)
  unfolding clear_others
  clear_others-keeps row col m h =
      for_range_inv P (num_rows m) 0 _
        (λ r m' low high h'.
          if_ind P (not (r == row) && (bit_at m' r col == 1))
            (λ e. keep row r m' (λ same. ground (arith, same, e)) h') (λ e. h'))
        m h

  augmented_column-keeps :
      (row col : ℕ) (m : BooleanMatrix) → P m → P (augmented_column track row col m).1
  unfolding augmented_column
  augmented_column-keeps row col m h =
      let Goal : ℕ × BooleanMatrix → Type 0 = λ done. P done.1 in
      if_ind Goal (not (any_from (num_rows m) 0 (λ r. not (bit_at m r col == 0)))) (λ e. h)
        (λ e.
          if_ind Goal (bit_at m row col == 0)
            (λ is_zero.
              option_ind Goal (find_from (num_rows m - row) row (λ r. bit_at m r col == 1))
                (λ e'. h)
                (λ r found. clear_others-keeps row col _ (
                  keep r row m
                    (λ same.
                      two_bits m r row col same
                        (find_from_bounds (num_rows m - row) row (λ q. bit_at m q col == 1) found).2
                        is_zero)
                    h)))
            (λ one. clear_others-keeps row col m h))

  augmented_from-keeps :
      (cols col row : ℕ) (m : BooleanMatrix) → P m → P (augmented_from track cols col row m).1
  unfolding augmented_from
  augmented_from-keeps zero col row m h = h
  augmented_from-keeps (suc cols) col row m h =
      if_ind (Second P) (ltb row (num_rows m))
        (λ e. augmented_from-keeps cols (col + 1) _ _ (augmented_column-keeps row col m h)) (λ e. h)

  -- What a row operation on two different rows keeps, the augmented elimination keeps, from the
  -- matrix without recorded operations on.
  pub gaussian_elimination_augmented-keeps :
      (m : BooleanMatrix)
      → P (record m { row_operations = [] })
      → P (gaussian_elimination_augmented track m).1
  unfolding gaussian_elimination_augmented
  gaussian_elimination_augmented-keeps m h = augmented_from-keeps (num_cols m - 1) 0 0 _ h

module _ (track : Bool) (P : BooleanMatrix → Type 0) (keep : Keeps track P) where
  clear_section_duplicates-keeps :
      (lo n : ℕ) (seen : List (Row × ℕ)) (rs : List ℕ) (m : BooleanMatrix)
      → P m
      → P (clear_section_duplicates track lo n seen rs m)
  unfolding clear_section_duplicates
  clear_section_duplicates-keeps lo n seen [] m h = h
  clear_section_duplicates-keeps lo n seen (r ∷ rs) m h =
      let part = get_sub_vec track n lo (get_or m.matrix r []) in
      if_ind P (all_zero track part) (λ e. clear_section_duplicates-keeps lo n seen rs m h)
        (λ e.
          option_ind P (lookup_section track seen part)
            (λ e'. clear_section_duplicates-keeps lo n ((part, r) ∷ seen) rs m h)
            (λ c e'. clear_section_duplicates-keeps lo n seen rs _ (keep c r m h)))

  clear_all_1s_in_column-keeps :
      (pivot col : ℕ) (rs : List ℕ) (m : BooleanMatrix)
      → P m
      → P (clear_all_1s_in_column track pivot col rs m)
  unfolding clear_all_1s_in_column
  clear_all_1s_in_column-keeps pivot col [] m h = h
  clear_all_1s_in_column-keeps pivot col (r ∷ rs) m h =
      clear_all_1s_in_column-keeps pivot col rs _
        (if_ind P (bit_at m r col == 1) (λ e. keep pivot r m h) (λ e. h))

  skip_column-keeps :
      (col : ℕ) (st : BooleanMatrix × List ℕ) → P st.0 → P (skip_column track col st).0
  skip_column-keeps col (m, pivots) h =
      let k = length pivots in
      option_ind (First P) (find_from (num_rows m - k) k (λ r. bit_at m r col == 1)) (λ e. h)
        (λ r e.
          clear_all_1s_in_column-keeps k col _ _ (if_ind P (r == k) (λ e'. h) (λ e'. keep r k m h)))

  skip_section-keeps :
      (block idx : ℕ) (st : BooleanMatrix × List ℕ) → P st.0 → P (skip_section track block idx st).0
  unfolding skip_section
  skip_section-keeps block idx (m, pivots) h =
      let lo = section_begin track block idx in
      let n = section_size track block idx m in
      let rows = iota track (num_rows m - length pivots) (length pivots) in
      for_range_inv (First P) n lo (skip_column track)
        (λ c st low high h'. skip_column-keeps c st h')
        (clear_section_duplicates track lo n [] rows m, pivots)
        (clear_section_duplicates-keeps lo n [] rows m h)

  reduce_pivots-keeps :
      (lo n : ℕ) (pivots : List ℕ) (m : BooleanMatrix)
      → P m
      → P (reduce_pivots track lo n pivots m).0
  unfolding reduce_pivots
  reduce_pivots-keeps lo n [] m h = h
  reduce_pivots-keeps lo n (p ∷ ps) m h =
      if_ind (First P) (leb lo p && ltb p (lo + n))
        (λ e.
          reduce_pivots-keeps lo n ps _
            (clear_all_1s_in_column-keeps (length ps) p (iota track (length ps) 0) m h))
        (λ e. h)

  ended :
      (pivots : List ℕ) {x y : BooleanMatrix} → P x → P y → P (elim pivots [ [] ↦ x | p ∷ ps ↦ y ])
  ended [] h h' = h
  ended (p ∷ ps) h h' = h'

  reduce_sections-keeps :
      (block idx : ℕ) (pivots : List ℕ) (m : BooleanMatrix)
      → P m
      → P (reduce_sections track block idx pivots m)
  unfolding reduce_sections
  reduce_sections-keeps block zero pivots m h = h
  reduce_sections-keeps block (suc idx) pivots m h =
      let lo = section_begin track block idx in
      let n = section_size track block idx m in
      let rows = reverse (iota track (length pivots) 0) in
      let m₁ = clear_section_duplicates track lo n [] rows m in
      let next = reduce_pivots track lo n pivots m₁ in
      let h₁ : P next.0 =
        reduce_pivots-keeps lo n pivots m₁ (clear_section_duplicates-keeps lo n [] rows m h) in
      ended next.1 h₁ (reduce_sections-keeps block idx next.1 next.0 h₁)

  -- What every row operation keeps, the elimination by sections keeps.
  pub gaussian_elimination_skip-keeps :
      (block : ℕ) (full : Bool) (m : BooleanMatrix)
      → P m
      → P (gaussian_elimination_skip track block full m).1
  unfolding gaussian_elimination_skip
  gaussian_elimination_skip-keeps block full m h =
      let echelon = for_range (n_sections track block m) 0 (skip_section track block) (m, []) in
      let h₁ : P echelon.0 =
        for_range_inv (First P) (n_sections track block m) 0 (skip_section track block)
          (λ i st low high h'. skip_section-keeps block i st h') (m, []) h in
      if_ind P (not full || (length echelon.1 == 0)) (λ e. h₁)
        (λ e. reduce_sections-keeps block (n_sections track block m) echelon.1 echelon.0 h₁)
