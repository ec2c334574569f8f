-- ===== src/Pauli/Rotation.antt =====
-- src/tableau/pauli_rotation.{hpp,cpp}: `PauliRotation`, and the Clifford operators that turn a rotation
-- into one about Z on a single qubit.
pub mod Extraction
pub mod Validity
use qsyn.Prelude.{
  ℕ, zero, suc, ◌+◌, Bool, true, false, List, [], ◌∷◌, ◌++◌, map, length, get_or, if◌then◌else◌,
}
use qsyn.Pauli.Product
use qsyn.Pauli.Product.{Pauli, Site, PauliProduct, pauli_of, n_qubits}
use qsyn.Pauli.Operator.{CliffordOperatorType, CliffordOperator, CliffordOperatorString}
use qsyn.Pauli.Trait.{PauliProductTrait}
use qsyn.Util.Phase.{Phase, scale, minus_one}
use qsyn.Util.BooleanMatrix.{Row, of_rows}
use qsyn.Util.BooleanMatrix.Elimination.{matrix_rank}

pub record PauliRotation : Type 0 where
  pub product : PauliProduct
  pub phase : Phase

-- `_normalize()`.
unfoldable pub normalize : PauliRotation → PauliRotation
normalize r =
    if r.product.neg
    then record { product = Product.negate r.product; phase = scale r.phase minus_one }
    else r

-- The constructor from a product and a phase.
unfoldable pub rotation : PauliProduct → Phase → PauliRotation
unfolding normalize
rotation p θ = normalize (record { product = p; phase = θ })

unfoldable pub h : PauliRotation → ℕ → PauliRotation
unfolding normalize
h r q = normalize (record r { product = Product.h r.product q })

unfoldable pub s : PauliRotation → ℕ → PauliRotation
unfolding normalize
s r q = normalize (record r { product = Product.s r.product q })

unfoldable pub cx : PauliRotation → ℕ → ℕ → PauliRotation
unfolding normalize
cx r c t = normalize (record r { product = Product.cx r.product c t })

instance abbrev pub pauli_rotation : PauliProductTrait PauliRotation
pauli_rotation = record { h = h; s = s; cx = cx }

abbrev pub is_commutative : PauliRotation → PauliRotation → Bool
is_commutative r u = Product.is_commutative r.product u.product

abbrev pub is_diagonal : PauliRotation → Bool
is_diagonal r = Product.is_diagonal r.product

-- The first loop of `extract_clifford_operators`: the qubits from `i` on.
abbrev pub single_operator : ℕ → Pauli → CliffordOperatorString
single_operator i Pauli.x = record { type = CliffordOperatorType.h; qubit₀ = i; qubit₁ = 0 } ∷ []
single_operator i Pauli.y = record { type = CliffordOperatorType.v; qubit₀ = i; qubit₁ = 0 } ∷ []
single_operator i _ = []

unfoldable pub single_operators : ℕ → List Site → CliffordOperatorString
single_operators i [] = []
single_operators i (a ∷ as') = single_operator i (pauli_of a) ++ single_operators (i + 1) as'

-- `non_i_qubits`.
abbrev pub is_not_i : Site → Bool
is_not_i a = if a.z_set then true else a.x_set

unfoldable pub non_i_qubits : ℕ → List Site → List ℕ
non_i_qubits i [] = []
non_i_qubits i (a ∷ as') =
    let rest = non_i_qubits (i + 1) as' in if is_not_i a then i ∷ rest else rest

-- One cx for each adjacent pair.
unfoldable pub adjacent_cxs : List ℕ → CliffordOperatorString
adjacent_cxs [] = []
adjacent_cxs (c ∷ []) = []
adjacent_cxs (c ∷ t ∷ qs) =
    record { type = CliffordOperatorType.cx; qubit₀ = c; qubit₁ = t } ∷ adjacent_cxs (t ∷ qs)

-- `back()`, which the source leaves undefined on an empty vector: 0.
abbrev pub back : List ℕ → ℕ
back [] = 0
back (q ∷ []) = q
back (q ∷ r ∷ qs) = back (r ∷ qs)

unfoldable pub extract_clifford_operators : PauliRotation → CliffordOperatorString × ℕ
unfolding single_operators non_i_qubits adjacent_cxs
extract_clifford_operators r =
    let qs = non_i_qubits 0 r.product.sites in
    (single_operators 0 r.product.sites ++ adjacent_cxs qs, back qs)

-- `matrix_rank` of the z bits of the rotations.
abbrev pub bit_of : Bool → ℕ
bit_of true = 1
bit_of false = 0

abbrev pub z_row : PauliRotation → Row
z_row r = map (λ a. bit_of a.z_set) r.product.sites

unfoldable pub rotations_rank : List PauliRotation → ℕ
unfolding matrix_rank
rotations_rank rs = matrix_rank (of_rows (map z_row rs))
