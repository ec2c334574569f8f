-- ===== src/Tableau/Stabilizer/Adjoint.antt =====
-- The adjoint string undoes a string on a whole tableau.
use qsyn.Prelude.{ℕ, ◌≡◌, ◌∙◌, ap, sym, subst}
use qsyn.Pauli.Operator.{CliffordOperatorString, adjoint}
use qsyn.Pauli.Trait.{apply}
use qsyn.Pauli.Gates.{pauli_product}
use qsyn.Pauli.Generated.{AllDistinct}
use qsyn.Pauli.Adjoint.{AllValid}
use qsyn.Pauli.Strings.{apply-adjoint, adjoint-AllValid}
use qsyn.Pauli.Commute.{AllValid→AllDistinct}
use qsyn.Tableau.Stabilizer.{StabilizerTableau, stabilizer_tableau, row}
use qsyn.Tableau.Stabilizer.Rows.{IsWellFormed, row-apply, apply-IsWellFormed, tableau_ext}

-- Applying a string of operators on qubits of the register to a well-formed tableau, and then the
-- adjoint string, gives the tableau back.
pub apply-adjoint_tableau :
    (n : ℕ) (t : StabilizerTableau) (ops : CliffordOperatorString)
    → IsWellFormed n t
    → AllValid n ops
    → apply (apply t ops) (adjoint ops) ≡ t
apply-adjoint_tableau n t ops w v =
    tableau_ext (apply (apply t ops) (adjoint ops)) t
      (apply-IsWellFormed n (apply t ops) (adjoint ops) kept d') w
      (λ k inside.
        row-apply n (apply t ops) (adjoint ops) k kept d' inside
        ∙ ap (λ p. apply p (adjoint ops)) (row-apply n t ops k w d inside)
        ∙ apply-adjoint (row t k) ops (subst (λ m. AllValid m ops) (sym (w.widths k inside)) v))
  where
    d : AllDistinct ops
    d = AllValid→AllDistinct n ops v

    d' : AllDistinct (adjoint ops)
    d' = AllValid→AllDistinct n (adjoint ops) (adjoint-AllValid n ops v)

    kept : IsWellFormed n (apply t ops)
    kept = apply-IsWellFormed n t ops w d
