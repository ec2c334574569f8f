-- ===== src/Pauli/Names.antt =====
-- src/tableau/pauli_rotation.cpp: the names of the Clifford operators.
use qsyn.Prelude.{◌≡◌, refl, some}
use qsyn.Pauli.Operator.{CliffordOperatorType, to_clifford_operator_type, to_string}

-- The type of an operator is read back from its name.
pub to_clifford_operator_type-to_string :
    (op : CliffordOperatorType) → to_clifford_operator_type (to_string op) ≡ some op
unfolding to_clifford_operator_type to_string
to_clifford_operator_type-to_string CliffordOperatorType.h = refl
to_clifford_operator_type-to_string CliffordOperatorType.s = refl
to_clifford_operator_type-to_string CliffordOperatorType.cx = refl
to_clifford_operator_type-to_string CliffordOperatorType.sdg = refl
to_clifford_operator_type-to_string CliffordOperatorType.v = refl
to_clifford_operator_type-to_string CliffordOperatorType.vdg = refl
to_clifford_operator_type-to_string CliffordOperatorType.x = refl
to_clifford_operator_type-to_string CliffordOperatorType.y = refl
to_clifford_operator_type-to_string CliffordOperatorType.z = refl
to_clifford_operator_type-to_string CliffordOperatorType.cz = refl
to_clifford_operator_type-to_string CliffordOperatorType.swap = refl
to_clifford_operator_type-to_string CliffordOperatorType.ecr = refl
