-- ===== src/Pauli/Operator.antt =====
-- src/tableau/pauli_rotation.{hpp,cpp}: the Clifford operators, their names and their adjoints.
use qsyn.Prelude.{ℕ, List, map, reverse, Option, none, some, if◌then◌else◌}
use Prim.Native.String.{String}
use text.Mathlib.Text.{◌==◌ as str_eq}

-- `enum class CliffordOperatorType`.
pub data CliffordOperatorType : Type 0 where
  h s cx sdg v vdg x y z cz swap ecr : CliffordOperatorType

-- `CliffordOperator`: a type with its array of two qubits. The second is read for cx, cz, swap, ecr.
pub record CliffordOperator : Type 0 where
  pub type : CliffordOperatorType
  pub qubit₀ : ℕ
  pub qubit₁ : ℕ

abbrev pub CliffordOperatorString : Type 0
CliffordOperatorString = List CliffordOperator

unfoldable pub to_clifford_operator_type : String → Option CliffordOperatorType
to_clifford_operator_type str =
    if str_eq str "h"
    then some h
    else if str_eq str "s"
    then some s
    else if str_eq str "cx"
    then some cx
    else if str_eq str "sdg"
    then some sdg
    else if str_eq str "v"
    then some v
    else if str_eq str "vdg"
    then some vdg
    else if str_eq str "x"
    then some x
    else if str_eq str "y"
    then some y
    else if str_eq str "z"
    then some z
    else if str_eq str "cz"
    then some cz
    else if str_eq str "swap"
    then some swap
    else if str_eq str "ecr"
    then some ecr
    else none

unfoldable pub to_string : CliffordOperatorType → String
to_string h = "h"
to_string s = "s"
to_string cx = "cx"
to_string sdg = "sdg"
to_string v = "v"
to_string vdg = "vdg"
to_string x = "x"
to_string y = "y"
to_string z = "z"
to_string cz = "cz"
to_string swap = "swap"
to_string ecr = "ecr"

-- The three overloads of `adjoint`.
unfoldable pub adjoint_type : CliffordOperatorType → CliffordOperatorType
adjoint_type s = sdg
adjoint_type sdg = s
adjoint_type v = vdg
adjoint_type vdg = v
adjoint_type op = op

unfoldable pub adjoint_operator : CliffordOperator → CliffordOperator
unfolding adjoint_type
adjoint_operator op = record op { type = adjoint_type op.type }

unfoldable pub adjoint : CliffordOperatorString → CliffordOperatorString
unfolding adjoint_operator
adjoint ops = map adjoint_operator (reverse ops)
