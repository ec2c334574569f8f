-- ===== src/Tests/Paulis.antt =====
-- Pauli products and Clifford strings at concrete inputs.
use qsyn.Prelude.{
  ℕ, ◌+◌, ◌*◌, ◌%◌, ◌≡◌, ◌↔◌, refl, arith, true, false, not, xor, ◌&&◌, set, [], ◌∷◌,
}
use qsyn.Pauli.Product
use qsyn.Pauli.Product.{PauliProduct, Site, ◌⊙◌, is_commutative, is_z_set}
use qsyn.Pauli.Operator.{CliffordOperatorType, CliffordOperator, CliffordOperatorString, adjoint}
use qsyn.Pauli.Trait.{apply}
use qsyn.Pauli.Gates.{pauli_product}
use qsyn.Pauli.Power.{bit}
use qsyn.Pauli.Strings.{apply-adjoint}
use qsyn.Pauli.Commute.{apply-⊙, is_commutative-apply}
use qsyn.Pauli.Matrix.{Basis, act, exponent}
use qsyn.Pauli.Matrix.Product.{⊙-matrix, is_commutative_iff}
use qsyn.Pauli.Matrix.Gates.{qubit, s-matrix, h-matrix}
use qsyn.Pauli.Matrix.Cx.{cnot, cx-matrix}

abbrev pub site_x : Site
site_x = record { z_set = false; x_set = true }

abbrev pub site_y : Site
site_y = record { z_set = true; x_set = true }

abbrev pub site_z : Site
site_z = record { z_set = true; x_set = false }

-- -XY and +ZY.
abbrev pub minus_xy : PauliProduct
minus_xy = record { sites = site_x ∷ site_y ∷ []; neg = true }

abbrev pub plus_zy : PauliProduct
plus_zy = record { sites = site_z ∷ site_y ∷ []; neg = false }

abbrev pub plus_yx : PauliProduct
plus_yx = record { sites = site_y ∷ site_x ∷ []; neg = false }

abbrev one_zero : Basis
one_zero = true ∷ false ∷ []

abbrev pub op : CliffordOperatorType → ℕ → ℕ → CliffordOperator
op ty a b = record { type = ty; qubit₀ = a; qubit₁ = b }

abbrev pub circuit : CliffordOperatorString
circuit =
    op CliffordOperatorType.h 0 0
    ∷ op CliffordOperatorType.ecr 0 1
    ∷ op CliffordOperatorType.vdg 1 0
    ∷ op CliffordOperatorType.swap 1 0
    ∷ []

xy_times_zy : (minus_xy ⊙ plus_zy).neg ≡ false
unfolding ◌⊙◌
xy_times_zy = refl

apply-adjoint_example : apply (apply minus_xy circuit) (adjoint circuit) ≡ minus_xy
apply-adjoint_example = apply-adjoint minus_xy circuit (omega arith)

apply-⊙_example :
    apply (minus_xy ⊙ plus_zy) circuit ≡ apply minus_xy circuit ⊙ apply plus_zy circuit
apply-⊙_example = apply-⊙ minus_xy plus_zy circuit refl (omega arith)

is_commutative-apply_example :
    is_commutative (apply minus_xy circuit) (apply plus_yx circuit)
    ≡ is_commutative minus_xy plus_yx
is_commutative-apply_example = is_commutative-apply minus_xy plus_yx circuit refl (omega arith)

⊙-matrix_example :
    (act minus_xy (act plus_zy one_zero) ≡ act (minus_xy ⊙ plus_zy) one_zero)
    × ((exponent minus_xy (act plus_zy one_zero) + exponent plus_zy one_zero) % 4
        ≡ (exponent (minus_xy ⊙ plus_zy) one_zero + bit (not (is_commutative minus_xy plus_zy)))
          % 4)
⊙-matrix_example = ⊙-matrix minus_xy plus_zy one_zero refl refl

is_commutative_iff_example :
    (is_commutative minus_xy plus_yx ≡ true) ↔ (minus_xy ⊙ plus_yx ≡ plus_yx ⊙ minus_xy)
is_commutative_iff_example = is_commutative_iff minus_xy plus_yx refl

s-matrix_example :
    (act (Product.s minus_xy 0) one_zero ≡ act minus_xy one_zero)
    × ((exponent minus_xy one_zero + bit (qubit (act minus_xy one_zero) 0)) % 4
        ≡ (exponent (Product.s minus_xy 0) one_zero + bit (qubit one_zero 0)) % 4)
s-matrix_example = s-matrix minus_xy 0 one_zero (omega arith) refl

h-matrix_example :
    (act (Product.h minus_xy 1) (set one_zero 1 (xor true (is_z_set minus_xy 1)))
      ≡ set (act minus_xy one_zero) 1 true)
    × ((exponent minus_xy one_zero + 2 * bit (true && qubit (act minus_xy one_zero) 1)) % 4
        ≡ (exponent (Product.h minus_xy 1) (set one_zero 1 (xor true (is_z_set minus_xy 1)))
            + 2 * bit (xor true (is_z_set minus_xy 1) && qubit one_zero 1))
          % 4)
h-matrix_example = h-matrix minus_xy 1 one_zero true (omega arith) refl

cx-matrix_example :
    (act (Product.cx minus_xy 0 1) (cnot one_zero 0 1) ≡ cnot (act minus_xy one_zero) 0 1)
    × (exponent minus_xy one_zero % 4 ≡ exponent (Product.cx minus_xy 0 1) (cnot one_zero 0 1) % 4)
cx-matrix_example = cx-matrix minus_xy 0 1 one_zero (omega arith) (omega arith) (omega arith) refl
