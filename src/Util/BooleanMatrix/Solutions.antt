-- ===== src/Util/BooleanMatrix/Solutions.antt =====
-- The linear equations over two values that the rows of a BooleanMatrix stand for.
use qsyn.Prelude.{
  ℕ, suc, ◌+◌, ◌%◌, ◌<◌, ◌≡◌, ◌≢◌, ◌↔◌, ◌∙◌, refl, sym, ap, subst, Bool, true, false, List, [], ◌∷◌,
  length, get_or, length-set, get_or-set_self, get_or-set_ne, if◌then◌else◌, arith, inl, inr,
  eq_cases, leb, if_ind,
}
use qsyn.Util.BooleanMatrix.{Row, BooleanMatrix, num_rows, row_add, add_rows, row_operation}
use qsyn.Util.BooleanMatrix.Elimination.{gaussian_elimination_augmented}
use qsyn.Util.BooleanMatrix.Record.{KeepsRow, gaussian_elimination_augmented-keeps}

-- The sum of the entries of a row where the assignment is true, modulo 2.
unfoldable pub dot : List Bool → Row → ℕ
dot [] row = 0
dot (y ∷ ys) [] = 0
dot (y ∷ ys) (a ∷ row) = ((if y then a else 0) + dot ys row) % 2

-- An assignment solves a matrix when it makes every row even; the last variable is the constant 1 of
-- an augmented matrix.
unfoldable pub Solves : List Bool → List Row → Type 0
Solves ys rows = (i : ℕ) → i < length rows → dot ys (get_or rows i []) ≡ 0

unfoldable pub IsRectangular : ℕ → List Row → Type 0
IsRectangular w rows = (i : ℕ) → i < length rows → length (get_or rows i []) ≡ w

length-row_add : (a b : Row) → length (row_add a b) ≡ length a
unfolding row_add
length-row_add [] b = refl
length-row_add (x ∷ a) [] = refl
length-row_add (x ∷ a) (y ∷ b) = ap suc (length-row_add a b)

dot-row_add :
    (ys : List Bool) (a b : Row)
    → length a ≡ length b
    → dot ys (row_add a b) ≡ (dot ys a + dot ys b) % 2
unfolding row_add dot
dot-row_add [] a b h = refl
dot-row_add (y ∷ ys) [] [] h = refl
dot-row_add (y ∷ ys) [] (b ∷ bs) h = ground arith
dot-row_add (y ∷ ys) (a ∷ as') [] h = ground arith
dot-row_add (true ∷ ys) (a ∷ as') (b ∷ bs) h = omega (arith, dot-row_add ys as' bs (omega arith))
dot-row_add (false ∷ ys) (a ∷ as') (b ∷ bs) h = omega (arith, dot-row_add ys as' bs (omega arith))

dot-lt : (ys : List Bool) (a : Row) → dot ys a < 2
unfolding dot
dot-lt [] a = omega arith
dot-lt (y ∷ ys) [] = omega arith
dot-lt (y ∷ ys) (a ∷ as') = omega arith

module _ (w : ℕ) (rows : List Row) (c t : ℕ) (c_in : c < length rows) (t_in : t < length rows) where
  add_rows-IsRectangular : IsRectangular w rows → IsRectangular w (add_rows rows c t)
  unfolding IsRectangular
  add_rows-IsRectangular r i i_in =
      let i_in' : i < length rows =
        omega (arith, length-set rows t (row_add (get_or rows t []) (get_or rows c []))) in
      elim (eq_cases t i) [
        | inl e ↦
            subst (λ k. length (get_or (add_rows rows c t) k []) ≡ w) e
              (rw (get_or-set_self rows t (row_add (get_or rows t []) (get_or rows c [])) [] t_in)
                (length-row_add (get_or rows t []) (get_or rows c []) ∙ r t t_in))
        | inr ne ↦
            rw (get_or-set_ne rows t i (row_add (get_or rows t []) (get_or rows c [])) [] ne)
              (r i i_in')
      ]

  -- The equation that changed holds with that of the other row exactly when the old one did.
  dot-add_rows :
      (ys : List Bool)
      → IsRectangular w rows
      → dot ys (get_or (add_rows rows c t) t [])
        ≡ (dot ys (get_or rows t []) + dot ys (get_or rows c [])) % 2
  unfolding IsRectangular
  dot-add_rows ys r =
      ap (dot ys) (get_or-set_self rows t (row_add (get_or rows t []) (get_or rows c [])) [] t_in)
      ∙ dot-row_add ys (get_or rows t []) (get_or rows c []) (r t t_in ∙ sym (r c c_in))

  add_rows-Solves :
      (ys : List Bool)
      → IsRectangular w rows
      → c ≢ t
      → Solves ys (add_rows rows c t) ↔ Solves ys rows
  unfolding Solves
  add_rows-Solves ys r ne =
      let changed = row_add (get_or rows t []) (get_or rows c []) in
      let same_length = length-set rows t changed in
      let other : (i : ℕ) → t ≢ i → get_or (add_rows rows c t) i [] ≡ get_or rows i [] =
        λ i ne'. get_or-set_ne rows t i changed [] ne' in
      (
        λ s i i_in. elim (eq_cases t i) [
          | inl e ↦
              let at_t : dot ys (get_or rows t []) ≡ 0 = omega (
                arith,
                dot-add_rows ys r,
                s t (omega (arith, same_length)),
                ap (dot ys) (other c (λ e'. ne (sym e'))),
                s c (omega (arith, same_length)),
                dot-lt ys (get_or rows t []),
              ) in
              subst (λ k. dot ys (get_or rows k []) ≡ 0) e at_t
          | inr ne' ↦ sym (ap (dot ys) (other i ne')) ∙ s i (omega (arith, same_length))
        ],
        λ s i i_in. elim (eq_cases t i) [
          | inl e ↦
              subst (λ k. dot ys (get_or (add_rows rows c t) k []) ≡ 0) e
                (omega (arith, dot-add_rows ys r, s t t_in, s c c_in))
          | inr ne' ↦ ap (dot ys) (other i ne') ∙ s i (omega (arith, same_length))
        ],
      )

HasSolutionsOf : ℕ → List Bool → List Row → BooleanMatrix → Type 0
HasSolutionsOf w ys rows m = IsRectangular w m.matrix × (Solves ys m.matrix ↔ Solves ys rows)

row_operation-keeps :
    (track : Bool) (w : ℕ) (ys : List Bool) (rows : List Row)
    → KeepsRow track (HasSolutionsOf w ys rows)
unfolding HasSolutionsOf row_operation
row_operation-keeps track w ys rows c t m ne (r, same) =
    if_ind (HasSolutionsOf w ys rows) (leb (num_rows m) c) (λ e. (r, same))
      (λ out.
        if_ind (HasSolutionsOf w ys rows) (leb (num_rows m) t) (λ e. (r, same))
          (λ out'.
            let c_in : c < length m.matrix = ground (arith, out) in
            let t_in : t < length m.matrix = ground (arith, out') in
            let step = add_rows-Solves w m.matrix c t c_in t_in ys r ne in
            (
              add_rows-IsRectangular w m.matrix c t c_in t_in r,
              (λ s. same.0 (step.0 s), λ s. step.1 (same.1 s)),
            )))

-- The augmented elimination of a matrix with rows of one length has the solutions of the matrix.
pub Solves-gaussian_elimination_augmented :
    (track : Bool) (w : ℕ) (ys : List Bool) (m : BooleanMatrix)
    → IsRectangular w m.matrix
    → Solves ys (gaussian_elimination_augmented track m).1.matrix ↔ Solves ys m.matrix
unfolding HasSolutionsOf
Solves-gaussian_elimination_augmented track w ys m r =
    (gaussian_elimination_augmented-keeps track (HasSolutionsOf w ys m.matrix)
      (row_operation-keeps track w ys m.matrix) m (r, (λ s. s, λ s. s))).1
