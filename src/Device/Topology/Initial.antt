-- ===== src/Device/Topology/Initial.antt =====
-- The matrix that `Device::calculate_path` starts from, and the tables that `resize_to_num_qubit` makes.
use qsyn.Prelude.{
  ℕ, zero, suc, ◌+◌, ◌≤◌, ◌<◌, ◌≡◌, refl, ◌∙◌, ◌&&◌, ◌||◌, ◌==◌, ==_iff, ==_false, row-write,
  entry-write_in, length-write, ltb, List, [], map, length, get_or, set, length-set, length-map,
  get_or-set_if, arith, if◌then◌else◌, Grid, entry, write, IsSquare, for_range_ind, resize,
  length-resize, get_or-resize, inl, inr, eq_cases,
}
use qsyn.Device.Topology.{max_dist, initial_row, initial_matrix, resize_rows}

new_row : (m n d i : ℕ) → i < m → get_or (map (resize n d) (resize m [] [])) i [] ≡ resize n d []
unfolding resize
new_row zero n d i hi = absurd (omega arith)
new_row (suc m) n d zero hi = refl
new_row (suc m) n d (suc i) hi = new_row m n d i (omega arith)

-- A table made anew: `n` rows of `n` times the value.
pub resize_rows-entry :
    (n d : ℕ)
    → IsSquare n (resize_rows n d [])
      × ((i j : ℕ) → i < n → j < n → entry (resize_rows n d []) i j ≡ d)
unfolding entry
resize_rows-entry n d = (
  record {
    rows = length-map (resize n [] []) (resize n d) ∙ length-resize n [] [];
    columns = λ i hi. rw (new_row n n d i hi) (length-resize n d []);
  },
  λ i j hi hj. rw (new_row n n d i hi) (get_or-resize n d j 0 hj),
)

-- The state at row `i` and column `j`: the rows above and this one have their size, the rows below are
-- empty, and the diagonal is set as far as the loops have come.
record IsDone (n i j : ℕ) (g : Grid) : Type 0 where
  rows : length g ≡ n
  columns : (a : ℕ) → a ≤ i → a < n → length (get_or g a []) ≡ n
  blank : (a : ℕ) → i < a → get_or g a [] ≡ []
  values :
      (a b : ℕ)
      → a ≤ i
      → a < n
      → b < n
      → entry g a b ≡ (if (a == b) && (ltb a i || ltb b j) then 0 else max_dist)

-- The state before row `i`.
record IsBefore (n i : ℕ) (g : Grid) : Type 0 where
  rows : length g ≡ n
  columns : (a : ℕ) → a < i → length (get_or g a []) ≡ n
  blank : (a : ℕ) → i ≤ a → get_or g a [] ≡ []
  values : (a b : ℕ) → a < i → b < n → entry g a b ≡ (if a == b then 0 else max_dist)

row_start :
    (n i : ℕ) (g : Grid)
    → i < n
    → IsBefore n i g
    → IsDone n i 0 (set g i (resize n max_dist (get_or g i [])))
unfolding entry
row_start n i g hi h = rw (h.blank i (omega arith)) record {
  rows = length-set g i (resize n max_dist []) ∙ h.rows;
  columns = λ a low ha. ground (arith, row a, length-resize n max_dist [], h.columns a);
  blank = λ a high. ground (arith, row a, h.blank a);
  values = λ a b low ha hb. ground (arith, row a, get_or-resize n max_dist b 0 hb, h.values a b);
}
  where
    row :
        (a : ℕ)
        → get_or (set g i (resize n max_dist [])) a []
          ≡ (if a == i then resize n max_dist [] else get_or g a [])
    row a = get_or-set_if g i a (resize n max_dist []) [] (omega (arith, h.rows))

-- The diagonal's entry of a row.
row_loop :
    (n i j : ℕ) (g : Grid)
    → i < n
    → j < n
    → IsDone n i j g
    → IsDone n i (j + 1) (if i == j then write g i j 0 else g)
row_loop n i j g hi hj h = elim (eq_cases i j) [
  | inl e ↦ rw ((==_iff i j).1 e) record {
    rows = write-rows;
    columns = λ a low ha. ground (arith, row a, h.columns a, length-set (get_or g i []) j 0);
    blank = λ a high. ground (arith, row a, h.blank a);
    values = λ a b low ha hb. ground (arith, e, cell a b, h.values a b low ha hb);
  }
  | inr ne ↦ rw (==_false i j ne) record {
    rows = h.rows;
    columns = h.columns;
    blank = h.blank;
    values = λ a b low ha hb. ground (arith, ne, h.values a b low ha hb);
  }
]
  where
    inside : i < length g
    inside = omega (arith, h.rows)

    row :
        (a : ℕ)
        → get_or (write g i j 0) a [] ≡ (if a == i then set (get_or g i []) j 0 else get_or g a [])
    row a = row-write g i j a 0 inside

    cell : (a b : ℕ) → entry (write g i j 0) a b ≡ (if (a == i) && (b == j) then 0 else entry g a b)
    cell a b = entry-write_in g i j a b 0 inside (omega (arith, h.columns i))

    write-rows : length (write g i j 0) ≡ n
    write-rows = length-write g i j 0 ∙ h.rows

initial_row-IsBefore :
    (n i : ℕ) (g : Grid) → i < n → IsBefore n i g → IsBefore n (i + 1) (initial_row n i g)
initial_row-IsBefore n i g hi h =
    let done =
      for_range_ind (IsDone n i) n 0 n _ (omega arith)
        (λ j u low high p. row_loop n i j u hi high p) _ (row_start n i g hi h) in
    record {
      rows = done.rows;
      columns = λ a ha. done.columns a (omega arith) (omega arith);
      blank = λ a ha. done.blank a (omega arith);
      values = λ a b ha hb. ground (arith, done.values a b (omega arith) (omega arith) hb);
    }

blank_rows : (n a : ℕ) → get_or (resize {A = List ℕ} n [] []) a [] ≡ []
unfolding resize
blank_rows zero a = refl
blank_rows (suc n) zero = refl
blank_rows (suc n) (suc a) = blank_rows n a

-- 0 on the diagonal, and the maximal distance elsewhere.
pub initial_matrix-entry :
    (n : ℕ)
    → IsSquare n (initial_matrix n)
      × ((i j : ℕ)
          → i < n
          → j < n
          → entry (initial_matrix n) i j ≡ (if i == j then 0 else max_dist))
unfolding initial_matrix
initial_matrix-entry n =
    let done =
      for_range_ind (IsBefore n) n 0 n (initial_row n) (omega arith)
        (λ i u low high p. initial_row-IsBefore n i u high p) _
        record {
          rows = length-resize n [] [];
          columns = λ a ha. absurd (omega arith);
          blank = λ a ha. blank_rows n a;
          values = λ a b ha hb. absurd (omega arith);
        } in
    (record { rows = done.rows; columns = done.columns }, done.values)
