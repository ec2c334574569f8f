-- ===== src/Pauli/Rotation/Validity.antt =====
-- The operators that `extract_clifford_operators` returns are on qubits of the rotation.
use qsyn.Prelude.{ℕ, ◌+◌, ◌<◌, ◌≤◌, ◌≡◌, Bool, true, false, List, [], ◌∷◌, length, arith, refl}
use qsyn.Pauli.Adjoint.{AllValid}
use qsyn.Pauli.Product.{Pauli, Site, pauli_of, n_qubits}
use qsyn.Pauli.Rotation.{
  PauliRotation, single_operator, single_operators, non_i_qubits, adjacent_cxs, is_not_i,
  extract_clifford_operators,
}
use qsyn.Pauli.Strings.{append-AllValid}

single-AllValid : (n i : ℕ) (l : Pauli) → AllValid n (single_operator i l)
single-AllValid n i Pauli.i = tt
single-AllValid n i Pauli.x = (tt, tt)
single-AllValid n i Pauli.y = (tt, tt)
single-AllValid n i Pauli.z = tt

singles-AllValid : (n i : ℕ) (as' : List Site) → AllValid n (single_operators i as')
unfolding single_operators
singles-AllValid n i [] = tt
singles-AllValid n i (a ∷ as') =
    append-AllValid n (single_operator i (pauli_of a)) (single_operators (i + 1) as')
      (single-AllValid n i (pauli_of a)) (singles-AllValid n (i + 1) as')

chain-AllValid :
    (n c i : ℕ) (as' : List Site)
    → c < i
    → i + length as' ≤ n
    → AllValid n (adjacent_cxs (c ∷ non_i_qubits i as'))
unfolding adjacent_cxs non_i_qubits
chain-AllValid n c i [] below room = tt
chain-AllValid n c i (a ∷ as') below room =
    go (is_not_i a) refl (chain-AllValid n i (i + 1) as' (omega arith) (omega arith))
      (chain-AllValid n c (i + 1) as' (omega arith) (omega arith))
  where
    go :
        (b : Bool)
        → is_not_i a ≡ b
        → AllValid n (adjacent_cxs (i ∷ non_i_qubits (i + 1) as'))
        → AllValid n (adjacent_cxs (c ∷ non_i_qubits (i + 1) as'))
        → AllValid n (adjacent_cxs (c ∷ non_i_qubits i (a ∷ as')))
    go true e moved kept = rw e ((omega arith, omega arith, λ d. omega arith), moved)
    go false e moved kept = rw e kept

chains-AllValid :
    (n i : ℕ) (as' : List Site)
    → i + length as' ≤ n
    → AllValid n (adjacent_cxs (non_i_qubits i as'))
unfolding adjacent_cxs non_i_qubits
chains-AllValid n i [] room = tt
chains-AllValid n i (a ∷ as') room =
    go (is_not_i a) refl (chain-AllValid n i (i + 1) as' (omega arith) (omega arith))
      (chains-AllValid n (i + 1) as' (omega arith))
  where
    go :
        (b : Bool)
        → is_not_i a ≡ b
        → AllValid n (adjacent_cxs (i ∷ non_i_qubits (i + 1) as'))
        → AllValid n (adjacent_cxs (non_i_qubits (i + 1) as'))
        → AllValid n (adjacent_cxs (non_i_qubits i (a ∷ as')))
    go true e moved kept = rw e moved
    go false e moved kept = rw e kept

pub extract-AllValid :
    (r : PauliRotation) → AllValid (n_qubits r.product) (extract_clifford_operators r).0
unfolding extract_clifford_operators
extract-AllValid r =
    append-AllValid (n_qubits r.product) (single_operators 0 r.product.sites)
      (adjacent_cxs (non_i_qubits 0 r.product.sites))
      (singles-AllValid (n_qubits r.product) 0 r.product.sites)
      (chains-AllValid (n_qubits r.product) 0 r.product.sites (omega arith))
