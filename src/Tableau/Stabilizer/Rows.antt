-- ===== src/Tableau/Stabilizer/Rows.antt =====
-- The rows of a stabilizer tableau under its gates: every row is conjugated on its own.
use qsyn.Prelude.{
  ℕ, zero, suc, ◌+◌, ◌<◌, ◌≤◌, ◌≡◌, ◌∙◌, ap, ap₂, sym, refl, arith, true, Bool-cases, leb, ◌||◌,
  inl, inr, List, [], ◌∷◌, map, length, get_or, length-map, ◌⊎◌,
}
use qsyn.Pauli.Product
use qsyn.Pauli.Product.{PauliProduct}
use qsyn.Pauli.Operator.{CliffordOperatorString}
use qsyn.Pauli.Trait.{apply}
use qsyn.Pauli.Gates.{
  pauli_product, n_qubits-h, n_qubits-s, n_qubits-cx, h_outside, s_outside, cx_outside,
}
use qsyn.Pauli.Generated.{AllDistinct, keep_apply}
use qsyn.Tableau.Stabilizer.{
  StabilizerTableau, n_qubits, row, identity_product, stabilizer_tableau, h, s, cx,
}

-- Two rows for each qubit, each over all the qubits.
pub record IsWellFormed (n : ℕ) (t : StabilizerTableau) : Type 0 where
  pub rows : length t.stabilizers ≡ n + n
  pub widths : (k : ℕ) → k < n + n → Product.n_qubits (row t k) ≡ n

pub n_qubits-eq : {n : ℕ} (t : StabilizerTableau) → IsWellFormed n t → n_qubits t ≡ n
n_qubits-eq t w = omega (arith, w.rows)

row-map :
    (t : StabilizerTableau) (f : PauliProduct → PauliProduct) (k : ℕ)
    → k < length t.stabilizers
    → get_or (map f t.stabilizers) k (identity_product 0) ≡ f (row t k)
row-map t f k inside = go t.stabilizers k inside
  where
    go :
        (l : List PauliProduct) (k : ℕ)
        → k < length l
        → get_or (map f l) k (identity_product 0) ≡ f (get_or l k (identity_product 0))
    go [] k h = elim h [ ]
    go (x ∷ xs) zero h = refl
    go (x ∷ xs) (suc k) h = go xs k (omega arith)

-- What a gate does to one row, whether or not its qubits lie in the register.
row-h :
    (n : ℕ) (t : StabilizerTableau) (q k : ℕ)
    → IsWellFormed n t
    → k < n + n
    → row (h t q) k ≡ Product.h (row t k) q
unfolding h
row-h n t q k w inside = elim (Bool-cases (leb (n_qubits t) q)) [
  | inl out ↦
      rw out (sym (h_outside (row t k) q (ground (arith, w.widths k inside, n_qubits-eq t w))))
  | inr in_range ↦ rw in_range (row-map t (λ p. Product.h p q) k (omega (arith, w.rows)))
]

row-s :
    (n : ℕ) (t : StabilizerTableau) (q k : ℕ)
    → IsWellFormed n t
    → k < n + n
    → row (s t q) k ≡ Product.s (row t k) q
unfolding s
row-s n t q k w inside = elim (Bool-cases (leb (n_qubits t) q)) [
  | inl out ↦
      rw out (sym (s_outside (row t k) q (ground (arith, w.widths k inside, n_qubits-eq t w))))
  | inr in_range ↦ rw in_range (row-map t (λ p. Product.s p q) k (omega (arith, w.rows)))
]

row-cx :
    (n : ℕ) (t : StabilizerTableau) (c d k : ℕ)
    → IsWellFormed n t
    → k < n + n
    → row (cx t c d) k ≡ Product.cx (row t k) c d
unfolding cx
row-cx n t c d k w inside = elim (Bool-cases (leb (n_qubits t) c || leb (n_qubits t) d)) [
  | inl out ↦ rw out (sym (cx_outside (row t k) c d (one_out out)))
  | inr in_range ↦ rw in_range (row-map t (λ p. Product.cx p c d) k (omega (arith, w.rows)))
]
  where
    one_out :
        (leb (n_qubits t) c || leb (n_qubits t) d) ≡ true
        → (Product.n_qubits (row t k) ≤ c) ⊎ (Product.n_qubits (row t k) ≤ d)
    one_out out = ground (arith, w.widths k inside, n_qubits-eq t w)

rows-h : (t : StabilizerTableau) (q : ℕ) → length (h t q).stabilizers ≡ length t.stabilizers
unfolding h
rows-h t q = ground (arith, length-map t.stabilizers (λ p. Product.h p q))

rows-s : (t : StabilizerTableau) (q : ℕ) → length (s t q).stabilizers ≡ length t.stabilizers
unfolding s
rows-s t q = ground (arith, length-map t.stabilizers (λ p. Product.s p q))

rows-cx : (t : StabilizerTableau) (c d : ℕ) → length (cx t c d).stabilizers ≡ length t.stabilizers
unfolding cx
rows-cx t c d = ground (arith, length-map t.stabilizers (λ p. Product.cx p c d))

module _ {n : ℕ} (t : StabilizerTableau) (w : IsWellFormed n t) where
  pub h-IsWellFormed : (q : ℕ) → IsWellFormed n (h t q)
  h-IsWellFormed q = record {
    rows = rows-h t q ∙ w.rows;
    widths = λ k inside.
        ap Product.n_qubits (row-h n t q k w inside) ∙ n_qubits-h (row t k) q ∙ w.widths k inside;
  }

  pub s-IsWellFormed : (q : ℕ) → IsWellFormed n (s t q)
  s-IsWellFormed q = record {
    rows = rows-s t q ∙ w.rows;
    widths = λ k inside.
        ap Product.n_qubits (row-s n t q k w inside) ∙ n_qubits-s (row t k) q ∙ w.widths k inside;
  }

  pub cx-IsWellFormed : (c d : ℕ) → IsWellFormed n (cx t c d)
  cx-IsWellFormed c d = record {
    rows = rows-cx t c d ∙ w.rows;
    widths = λ k inside.
        ap Product.n_qubits (row-cx n t c d k w inside)
        ∙ n_qubits-cx (row t k) c d
        ∙ w.widths k inside;
  }

-- The tableau after an operator string, row by row.
module _ (n k : ℕ) where
  abbrev HasRow : StabilizerTableau → PauliProduct → PauliProduct → Type 0
  HasRow t p _ = IsWellFormed n t × (k < n + n) × (row t k ≡ p)

  keep_row :
      (ops : CliffordOperatorString) (t : StabilizerTableau) (p : PauliProduct)
      → AllDistinct ops
      → HasRow t p p
      → HasRow (apply t ops) (apply p ops) (apply p ops)
  keep_row ops t p d r =
      keep_apply HasRow
        (λ a b c i r.
          (h-IsWellFormed a r.0 i, r.1, row-h n a i k r.0 r.1 ∙ ap (λ e. Product.h e i) r.2))
        (λ a b c i r.
          (s-IsWellFormed a r.0 i, r.1, row-s n a i k r.0 r.1 ∙ ap (λ e. Product.s e i) r.2))
        (λ a b c i j i_j r. (
          cx-IsWellFormed a r.0 i j,
          r.1,
          row-cx n a i j k r.0 r.1 ∙ ap (λ e. Product.cx e i j) r.2,
        ))
        ops t p p d r

-- Applying a string of operators, whose operators on two qubits have different ones, to a well-formed
-- tableau applies it to each of its rows.
pub row-apply :
    (n : ℕ) (t : StabilizerTableau) (ops : CliffordOperatorString) (k : ℕ)
    → IsWellFormed n t
    → AllDistinct ops
    → k < n + n
    → row (apply t ops) k ≡ apply (row t k) ops
row-apply n t ops k w d inside = (keep_row n k ops t (row t k) d (w, inside, refl)).2

pub apply-IsWellFormed :
    (n : ℕ) (t : StabilizerTableau) (ops : CliffordOperatorString)
    → IsWellFormed n t
    → AllDistinct ops
    → IsWellFormed n (apply t ops)
apply-IsWellFormed n t ops w d =
    (keep_apply (λ (a b c : StabilizerTableau). IsWellFormed n a)
      (λ a b c i r. h-IsWellFormed a r i) (λ a b c i r. s-IsWellFormed a r i)
      (λ a b c i j i_j r. cx-IsWellFormed a r i j) ops t t t d w)

list_ext :
    (xs ys : List PauliProduct)
    → length xs ≡ length ys
    → ((k : ℕ)
        → k < length xs
        → get_or xs k (identity_product 0) ≡ get_or ys k (identity_product 0))
    → xs ≡ ys
list_ext [] [] e f = refl
list_ext [] (y ∷ ys) e f = absurd (omega arith)
list_ext (x ∷ xs) [] e f = absurd (omega arith)
list_ext (x ∷ xs) (y ∷ ys) e f =
    ap₂ ◌∷◌ (f 0 (omega arith)) (list_ext xs ys (omega arith) (λ k h. f (suc k) (omega arith)))

-- A tableau is its rows.
pub tableau_ext :
    {n : ℕ} (t u : StabilizerTableau)
    → IsWellFormed n t
    → IsWellFormed n u
    → ((k : ℕ) → k < n + n → row t k ≡ row u k)
    → t ≡ u
tableau_ext {n} t u v w f =
    let e =
      list_ext t.stabilizers u.stabilizers (v.rows ∙ sym w.rows)
        (λ k inside. f k (omega (arith, v.rows))) in
    λ i. record { stabilizers = e i }
