-- ===== src/Tableau/Optimization/Matroids.antt =====
-- The partition of a phase polynomial into independent sets: `MatroidPartitionStrategy`,
-- `NaiveMatroidPartitionStrategy` and the two overloads of `matroid_partition`.
pub mod Partition
pub mod Failure
pub mod NonEmpty
use qsyn.Prelude.{
  ℕ, ◌+◌, Bool, not, leb, List, [], ◌∷◌, ◌++◌, map, reverse, length, if◌then◌else◌, Option, none,
  some, ◌>>=◌,
}
use qsyn.Pauli.Product.{n_qubits}
use qsyn.Pauli.Rotation.{PauliRotation, rotations_rank}
use qsyn.Tableau.SubTableaux.{SubTableau, clifford, rotations, Tableau, of_qubits}
use qsyn.Tableau.Optimization.Passes.{is_phase_polynomial}

-- `polynomial.front().n_qubits()`; 0 on an empty list, where the source reads past the end.
abbrev pub front_qubits : List PauliRotation → ℕ
front_qubits [] = 0
front_qubits (r ∷ rs) = n_qubits r.product

unfoldable pub is_independent : List PauliRotation → ℕ → Bool
unfolding rotations_rank
is_independent rs num_ancillae =
    let dim_v = front_qubits rs in
    let n = dim_v + num_ancillae in leb (dim_v + length rs) (n + rotations_rank rs)

-- One round of the loop of `NaiveMatroidPartitionStrategy::partition`, with the matroids from the last.
unfoldable pub add_term : ℕ → List (List PauliRotation) → PauliRotation → List (List PauliRotation)
unfolding is_independent
add_term num_ancillae [] term = (term ∷ []) ∷ []
add_term num_ancillae (last ∷ ms) term =
    if not (is_independent (last ++ term ∷ []) num_ancillae)
    then (term ∷ []) ∷ last ∷ ms
    else (last ++ term ∷ []) ∷ ms

unfoldable pub add_terms :
    ℕ → List (List PauliRotation) → List PauliRotation → List (List PauliRotation)
unfolding add_term
add_terms num_ancillae ms [] = ms
add_terms num_ancillae ms (r ∷ rs) = add_terms num_ancillae (add_term num_ancillae ms r) rs

unfoldable pub naive_partition : List PauliRotation → ℕ → List (List PauliRotation)
unfolding add_terms
naive_partition polynomial num_ancillae = reverse (add_terms num_ancillae ([] ∷ []) polynomial)

-- `MatroidPartitionStrategy::partition`.
abbrev pub MatroidPartitionStrategy : Type 0
MatroidPartitionStrategy = List PauliRotation → ℕ → List (List PauliRotation)

-- `none` also where the test on the list has no result.
unfoldable pub matroid_partition :
    List PauliRotation → MatroidPartitionStrategy → ℕ → Option (List (List PauliRotation))
unfolding is_phase_polynomial
matroid_partition polynomial partition num_ancillae = do
  is_polynomial ← is_phase_polynomial polynomial
  if not is_polynomial then none else some (partition polynomial num_ancillae)

-- The loop over the sub-tableaux: what it pushes for those from the given one on.
unfoldable pub partition_list :
    MatroidPartitionStrategy → ℕ → List SubTableau → Option (List SubTableau)
unfolding matroid_partition
partition_list partition num_ancillae [] = some []
partition_list partition num_ancillae (clifford t ∷ us) = do
  rest ← partition_list partition num_ancillae us
  some (clifford t ∷ rest)
partition_list partition num_ancillae (rotations rs ∷ us) = do
  parts ← matroid_partition rs partition num_ancillae
  rest ← partition_list partition num_ancillae us
  some (map rotations parts ++ rest)

unfoldable pub matroid_partition_tableau : Tableau → MatroidPartitionStrategy → ℕ → Option Tableau
unfolding partition_list
matroid_partition_tableau t partition num_ancillae = do
  pushed ← partition_list partition num_ancillae t.subtableaux
  some (record t { subtableaux = (of_qubits t.n_qubits).subtableaux ++ pushed })
