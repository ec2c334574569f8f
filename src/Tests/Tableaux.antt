-- ===== src/Tests/Tableaux.antt =====
-- Stabilizer tableaux and their synthesis at concrete inputs.
use qsyn.Prelude.{ℕ, ◌+◌, ◌<◌, ◌≡◌, refl, arith, Bool, false, zero, suc, [], ◌∷◌}
use qsyn.Pauli.Product
use qsyn.Pauli.Product.{PauliProduct}
use qsyn.Pauli.Operator.{adjoint}
use qsyn.Pauli.Trait.{apply}
use qsyn.Pauli.Gates.{pauli_product}
use qsyn.Tableau.Stabilizer.{StabilizerTableau, stabilizer_tableau, row, prepend, identity}
use qsyn.Tableau.Stabilizer
use qsyn.Tableau.Stabilizer.Rows.{IsWellFormed}
use qsyn.Tableau.Stabilizer.Adjoint.{apply-adjoint_tableau}
use qsyn.Tableau.Synthesis.AaronsonGottesman
use qsyn.Tableau.Synthesis.AaronsonGottesman.{eliminate}
use qsyn.Tableau.Synthesis.HOpt
use qsyn.Tests.Paulis.{minus_xy, plus_zy, plus_yx, circuit}

-- Four rows over two qubits.
abbrev four_rows : StabilizerTableau
four_rows = record { stabilizers = minus_xy ∷ plus_zy ∷ plus_yx ∷ minus_xy ∷ [] }

four_rows_widths : (k : ℕ) → k < 2 + 2 → Product.n_qubits (row four_rows k) ≡ 2
four_rows_widths zero h = refl
four_rows_widths (suc zero) h = refl
four_rows_widths (suc (suc zero)) h = refl
four_rows_widths (suc (suc (suc zero))) h = refl
four_rows_widths (suc (suc (suc (suc k)))) h = absurd (omega arith)

four_rows-IsWellFormed : IsWellFormed 2 four_rows
four_rows-IsWellFormed = record { rows = refl; widths = four_rows_widths }

abbrev never : ℕ → Bool
never k = false

apply-adjoint_tableau_example : apply (apply four_rows circuit) (adjoint circuit) ≡ four_rows
apply-adjoint_tableau_example =
    apply-adjoint_tableau 2 four_rows circuit four_rows-IsWellFormed (omega arith)

-- A tableau that a circuit prepares: the elimination ends in the identity.
abbrev prepared : StabilizerTableau
prepared = apply (identity 2) circuit

elimination_of_prepared : (eliminate never prepared).copy ≡ identity 2
unfolding eliminate identity apply AaronsonGottesman.start AaronsonGottesman.clear_from
    AaronsonGottesman.fix_signs qsyn.Prelude.for_range Stabilizer.cx Stabilizer.h Stabilizer.s
    qsyn.Prelude.any_from Product.cx Product.h Product.s qsyn.Prelude.find_from
    qsyn.Tableau.Synthesis.add_cx qsyn.Tableau.Synthesis.add_h qsyn.Tableau.Synthesis.add_s
    qsyn.Tableau.Synthesis.add_z qsyn.Tableau.Synthesis.add_x
elimination_of_prepared = refl
