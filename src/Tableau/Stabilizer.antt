-- ===== src/Tableau/Stabilizer.antt =====
-- src/tableau/stabilizer_tableau.{hpp,cpp}: `StabilizerTableau`, its gates and its prepend gates.
pub mod Rows
pub mod Adjoint
use qsyn.Prelude.{
  ℕ, zero, suc, ◌+◌, ◌/◌, Bool, ◌&&◌, ◌||◌, leb, if◌then◌else◌, List, [], ◌∷◌, map, length, get_or,
  set, replicate, true, false,
}
use qsyn.Pauli.Product
use qsyn.Pauli.Product.{Pauli, PauliProduct, no_site, set_pauli_type, is_commutative, ◌⊙◌}
use qsyn.Pauli.Operator.{CliffordOperatorType, CliffordOperator, CliffordOperatorString}
use qsyn.Pauli.Trait.{PauliProductTrait}
use qsyn.Pauli.Gates.{pauli_product}

pub record StabilizerTableau : Type 0 where
  pub stabilizers : List PauliProduct

abbrev pub n_qubits : StabilizerTableau → ℕ
n_qubits t = length t.stabilizers / 2

abbrev pub stabilizer_idx : ℕ → ℕ
stabilizer_idx q = q

abbrev pub destabilizer_idx : StabilizerTableau → ℕ → ℕ
destabilizer_idx t q = q + n_qubits t

-- `PauliProduct(std::string(n, 'I'))`.
abbrev pub identity_product : ℕ → PauliProduct
identity_product n = record { sites = replicate n no_site; neg = false }

-- A read past the last row, which the source leaves undefined, gives the product over no qubits.
abbrev pub row : StabilizerTableau → ℕ → PauliProduct
row t k = get_or t.stabilizers k (identity_product 0)

abbrev pub set_row : StabilizerTableau → ℕ → PauliProduct → StabilizerTableau
set_row t k p = record t { stabilizers = set t.stabilizers k p }

abbrev pub stabilizer : StabilizerTableau → ℕ → PauliProduct
stabilizer t q = row t (stabilizer_idx q)

abbrev pub destabilizer : StabilizerTableau → ℕ → PauliProduct
destabilizer t q = row t (destabilizer_idx t q)

abbrev pub set_stabilizer : StabilizerTableau → ℕ → PauliProduct → StabilizerTableau
set_stabilizer t q p = set_row t (stabilizer_idx q) p

abbrev pub set_destabilizer : StabilizerTableau → ℕ → PauliProduct → StabilizerTableau
set_destabilizer t q p = set_row t (destabilizer_idx t q) p

-- The loop of the constructor: Z on the diagonal of the stabilizers, X on that of the destabilizers.
unfoldable pub diagonal_from : ℕ → ℕ → StabilizerTableau → StabilizerTableau
diagonal_from zero i t = t
diagonal_from (suc rounds) i t =
    let t₁ = set_stabilizer t i (set_pauli_type (stabilizer t i) i Pauli.z) in
    let t₂ = set_destabilizer t₁ i (set_pauli_type (destabilizer t₁ i) i Pauli.x) in
    diagonal_from rounds (i + 1) t₂

unfoldable pub identity : ℕ → StabilizerTableau
unfolding diagonal_from set_pauli_type
identity n = diagonal_from n 0 (record { stabilizers = replicate (n + n) (identity_product n) })

unfoldable pub h : StabilizerTableau → ℕ → StabilizerTableau
h t q =
    if leb (n_qubits t) q
    then t
    else record t { stabilizers = map (λ p. Product.h p q) t.stabilizers }

unfoldable pub s : StabilizerTableau → ℕ → StabilizerTableau
s t q =
    if leb (n_qubits t) q
    then t
    else record t { stabilizers = map (λ p. Product.s p q) t.stabilizers }

unfoldable pub cx : StabilizerTableau → ℕ → ℕ → StabilizerTableau
cx t c d =
    if leb (n_qubits t) c || leb (n_qubits t) d
    then t
    else record t { stabilizers = map (λ p. Product.cx p c d) t.stabilizers }

instance abbrev pub stabilizer_tableau : PauliProductTrait StabilizerTableau
stabilizer_tableau = record { h = h; s = s; cx = cx }

unfoldable pub prepend_h : StabilizerTableau → ℕ → StabilizerTableau
prepend_h t q =
    if leb (n_qubits t) q
    then t
    else set_destabilizer (set_stabilizer t q (destabilizer t q)) q (stabilizer t q)

unfoldable pub prepend_s : StabilizerTableau → ℕ → StabilizerTableau
prepend_s t q =
    if leb (n_qubits t) q then t else set_destabilizer t q (stabilizer t q ⊙ destabilizer t q)

unfoldable pub prepend_cx : StabilizerTableau → ℕ → ℕ → StabilizerTableau
prepend_cx t c d =
    if leb (n_qubits t) c || leb (n_qubits t) d
    then t
    else let t₁ = set_stabilizer t d (stabilizer t c ⊙ stabilizer t d) in
      set_destabilizer t₁ c (destabilizer t₁ d ⊙ destabilizer t₁ c)

abbrev pub prepend_sdg : StabilizerTableau → ℕ → StabilizerTableau
prepend_sdg t q = prepend_s (prepend_s (prepend_s t q) q) q

abbrev pub prepend_v : StabilizerTableau → ℕ → StabilizerTableau
prepend_v t q = prepend_h (prepend_s (prepend_h t q) q) q

abbrev pub prepend_vdg : StabilizerTableau → ℕ → StabilizerTableau
prepend_vdg t q = prepend_h (prepend_sdg (prepend_h t q) q) q

abbrev pub prepend_z : StabilizerTableau → ℕ → StabilizerTableau
prepend_z t q = prepend_s (prepend_s t q) q

abbrev pub prepend_x : StabilizerTableau → ℕ → StabilizerTableau
prepend_x t q = prepend_h (prepend_z (prepend_h t q) q) q

abbrev pub prepend_y : StabilizerTableau → ℕ → StabilizerTableau
prepend_y t q = prepend_z (prepend_x t q) q

abbrev pub prepend_cz : StabilizerTableau → ℕ → ℕ → StabilizerTableau
prepend_cz t c d = prepend_h (prepend_cx (prepend_h t d) c d) d

abbrev pub prepend_swap : StabilizerTableau → ℕ → ℕ → StabilizerTableau
prepend_swap t a b = prepend_cx (prepend_cx (prepend_cx t a b) b a) a b

abbrev pub prepend_ecr : StabilizerTableau → ℕ → ℕ → StabilizerTableau
prepend_ecr t c d = prepend_cx (prepend_v (prepend_s (prepend_x t c) c) d) c d

abbrev pub prepend_dispatch : CliffordOperatorType → StabilizerTableau → ℕ → ℕ → StabilizerTableau
prepend_dispatch CliffordOperatorType.h t a b = prepend_h t a
prepend_dispatch CliffordOperatorType.s t a b = prepend_s t a
prepend_dispatch CliffordOperatorType.cx t a b = prepend_cx t a b
prepend_dispatch CliffordOperatorType.sdg t a b = prepend_sdg t a
prepend_dispatch CliffordOperatorType.v t a b = prepend_v t a
prepend_dispatch CliffordOperatorType.vdg t a b = prepend_vdg t a
prepend_dispatch CliffordOperatorType.x t a b = prepend_x t a
prepend_dispatch CliffordOperatorType.y t a b = prepend_y t a
prepend_dispatch CliffordOperatorType.z t a b = prepend_z t a
prepend_dispatch CliffordOperatorType.cz t a b = prepend_cz t a b
prepend_dispatch CliffordOperatorType.swap t a b = prepend_swap t a b
prepend_dispatch CliffordOperatorType.ecr t a b = prepend_ecr t a b

unfoldable pub prepend_operator : StabilizerTableau → CliffordOperator → StabilizerTableau
prepend_operator t op = prepend_dispatch op.type t op.qubit₀ op.qubit₁

unfoldable pub prepend : StabilizerTableau → CliffordOperatorString → StabilizerTableau
unfolding prepend_operator
prepend t [] = t
prepend t (op ∷ ops) = prepend (prepend_operator t op) ops

-- `is_commutative`: over the stabilizers, the first half of the rows.
abbrev pub all_commute : ℕ → List PauliProduct → PauliProduct → Bool
all_commute zero ps q = true
all_commute (suc k) [] q = true
all_commute (suc k) (p ∷ ps) q = is_commutative p q && all_commute k ps q

unfoldable pub stabilizers_commute : StabilizerTableau → PauliProduct → Bool
unfolding is_commutative
stabilizers_commute t q = all_commute (n_qubits t) t.stabilizers q
