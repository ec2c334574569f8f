-- ===== src/Tableau/Optimization/Passes.antt =====
-- The passes over whole tableaux: `collapse`, `properize`, `merge_rotations` and
-- `optimize_phase_polynomial`.
pub mod Loop
pub mod Collapse
pub mod Merge
use qsyn.Prelude.{
  ℕ, zero, suc, Bool, true, not, ◌&&◌, ◌==◌, ltb, List, [], ◌∷◌, ◌++◌, map, reverse, length,
  if◌then◌else◌, Option, none, some, ◌>>=◌,
}
use qsyn.Pauli.Operator.{CliffordOperatorString}
use qsyn.Pauli.Product.{n_qubits, is_diagonal}
use qsyn.Pauli.Rotation
use qsyn.Pauli.Rotation.{PauliRotation, pauli_rotation}
use qsyn.Pauli.Trait.{apply}
use qsyn.Tableau.Stabilizer.{StabilizerTableau, stabilizer_tableau, identity}
use qsyn.Tableau.SubTableaux.{SubTableau, clifford, rotations, Tableau, Extraction, is_clifford}
use qsyn.Tableau.Optimization.Identities.{erase_if, remove_all_identities}
use qsyn.Tableau.Optimization.Rotations.{merge_rotations, absorb_clifford_rotations, properize}

-- Prepends a stabilizer tableau if the first sub-tableau is a list of rotations.
unfoldable pub with_front : ℕ → List SubTableau → List SubTableau
unfolding identity
with_front n (rotations rs ∷ us) = clifford (identity n) ∷ rotations rs ∷ us
with_front n us = us

-- The loop of `collapse`, on the list from its end.
unfoldable pub sweep : Extraction → CliffordOperatorString → List SubTableau → List SubTableau
unfolding apply
sweep extract ops [] = []
sweep extract ops (clifford t ∷ us) =
    let t' = apply t ops in clifford t' ∷ sweep extract (extract t') us
sweep extract ops (rotations rs ∷ us) = rotations (map (λ r. apply r ops) rs) ∷ sweep extract ops us

abbrev pub rotations_of : SubTableau → List PauliRotation
rotations_of (clifford t) = []
rotations_of (rotations rs) = rs

-- The rotations of the sub-tableaux from the third on go to the end of those of the second.
abbrev pub join_rotations : List SubTableau → List PauliRotation
join_rotations [] = []
join_rotations (u ∷ us) = rotations_of u ++ join_rotations us

abbrev pub merge_lists : List SubTableau → List SubTableau
merge_lists [] = []
merge_lists (u ∷ us) = rotations (rotations_of u ++ join_rotations us) ∷ []

abbrev pub after_sweep : List SubTableau → List SubTableau
after_sweep [] = []
after_sweep (u ∷ us) = u ∷ merge_lists (erase_if is_clifford us)

unfoldable pub collapse_list : Extraction → ℕ → List SubTableau → List SubTableau
unfolding with_front sweep
collapse_list extract n [] = []
collapse_list extract n (u ∷ us) =
    let fronted = with_front n (u ∷ us) in
    if ltb 1 (length fronted)
    then after_sweep (reverse (sweep extract [] (reverse fronted)))
    else fronted

unfoldable pub collapse : Extraction → Tableau → Tableau
unfolding collapse_list
collapse extract t = record t { subtableaux = collapse_list extract t.n_qubits t.subtableaux }

-- One step of the merging loop of `properize`, on the new tableau from its end.
unfoldable pub push_merged : Extraction → List SubTableau → SubTableau → List SubTableau
unfolding apply
push_merged extract [] u = u ∷ []
push_merged extract (clifford t ∷ us) (clifford t') = clifford (apply t (extract t')) ∷ us
push_merged extract (rotations rs ∷ us) (rotations rs') = rotations (rs ++ rs') ∷ us
push_merged extract (u' ∷ us) u = u ∷ u' ∷ us

unfoldable pub merge_consecutive : Extraction → List SubTableau → List SubTableau → List SubTableau
unfolding push_merged
merge_consecutive extract acc [] = reverse acc
merge_consecutive extract acc (u ∷ us) = merge_consecutive extract (push_merged extract acc u) us

-- A loop over the sub-tableaux that runs a pass on each list of rotations and the last Clifford before
-- it, to which `std::ref` points. `acc` holds the lists that stand between them.
abbrev pub Pass : Type 0
Pass = StabilizerTableau → List PauliRotation → StabilizerTableau × List PauliRotation

unfoldable pub each_list :
    Pass → StabilizerTableau → List SubTableau → List SubTableau → List SubTableau
each_list pass c acc [] = clifford c ∷ acc
each_list pass c acc (clifford t ∷ us) = clifford c ∷ acc ++ each_list pass t [] us
each_list pass c acc (rotations rs ∷ us) =
    let out = pass c rs in each_list pass out.0 (acc ++ rotations out.1 ∷ []) us

-- `std::get<StabilizerTableau>` of the first sub-tableau, and the loop over the others.
abbrev pub each_list_of : Pass → List SubTableau → List SubTableau
each_list_of pass (clifford t ∷ us) = each_list pass t [] us
each_list_of pass us = us

-- `new_tableau` starts with the identity Clifford of its constructor, to which the first is pushed.
abbrev pub restart : Extraction → ℕ → List SubTableau → List SubTableau
restart extract n [] = []
restart extract n (u ∷ us) = merge_consecutive extract (u ∷ clifford (identity n) ∷ []) us

unfoldable pub properize_tableau : Extraction → Tableau → Tableau
unfolding with_front merge_consecutive identity each_list remove_all_identities properize
properize_tableau extract t = elim t.subtableaux [
  | [] ↦ t
  | u ∷ us ↦
      let merged = restart extract t.n_qubits (with_front t.n_qubits (u ∷ us)) in
      remove_all_identities extract (record t { subtableaux = each_list_of properize merged })
]

-- The do-while loop of `merge_rotations`, on fuel.
unfoldable pub merge_loop :
    ℕ → StabilizerTableau → List PauliRotation → StabilizerTableau × List PauliRotation
unfolding merge_rotations absorb_clifford_rotations
merge_loop zero c rs = (c, rs)
merge_loop (suc fuel) c rs =
    let next = absorb_clifford_rotations c (merge_rotations rs) in
    let rest = merge_loop fuel next.0 next.1 in
    if ltb (length next.1) (length rs) then rest else next

abbrev pub merge_collapsed : List SubTableau → List SubTableau
merge_collapsed (clifford c ∷ rotations rs ∷ us) =
    let out = merge_loop (suc (length rs)) c rs in clifford out.0 ∷ rotations out.1 ∷ us
merge_collapsed us = us

unfoldable pub merge_rotations_tableau : Extraction → Tableau → Tableau
unfolding collapse merge_loop
merge_rotations_tableau extract t =
    let t' = collapse extract t in record t' { subtableaux = merge_collapsed t'.subtableaux }

abbrev pub all {ℓ} : {A : Type ℓ} → (A → Bool) → List A → Bool
all test [] = true
all test (x ∷ xs) = test x && all test xs

-- `none` on an empty list, of which the source reads `front()`.
unfoldable pub is_phase_polynomial : List PauliRotation → Option Bool
unfolding is_diagonal
is_phase_polynomial [] = none
is_phase_polynomial (r ∷ rs) = some (
    all Rotation.is_diagonal (r ∷ rs)
    && all (λ u. n_qubits u.product == n_qubits r.product) (r ∷ rs))

-- `PhasePolynomialOptimizationStrategy::optimize` is the parameter `optimize`.
unfoldable pub optimize_polynomial :
    Pass → StabilizerTableau → List PauliRotation → Option (StabilizerTableau × List PauliRotation)
unfolding is_phase_polynomial
optimize_polynomial optimize c rs = do
  is_polynomial ← is_phase_polynomial rs
  some (if not is_polynomial then (c, rs) else optimize c rs)

-- The loop of `optimize_phase_polynomial`, as `each_list`; `none` where the test on a list has no result.
unfoldable pub each_polynomial :
    Pass → StabilizerTableau → List SubTableau → List SubTableau → Option (List SubTableau)
unfolding optimize_polynomial
each_polynomial optimize c acc [] = some (clifford c ∷ acc)
each_polynomial optimize c acc (clifford t ∷ us) = do
  rest ← each_polynomial optimize t [] us
  some (clifford c ∷ acc ++ rest)
each_polynomial optimize c acc (rotations rs ∷ us) = do
  out ← optimize_polynomial optimize c rs
  each_polynomial optimize out.0 (acc ++ rotations out.1 ∷ []) us

abbrev pub each_polynomial_of : Pass → List SubTableau → Option (List SubTableau)
each_polynomial_of optimize (clifford t ∷ us) = each_polynomial optimize t [] us
each_polynomial_of optimize us = some us

unfoldable pub optimize_phase_polynomial : Extraction → Pass → Tableau → Option Tableau
unfolding with_front each_polynomial remove_all_identities
optimize_phase_polynomial extract optimize t = elim t.subtableaux [
  | [] ↦ some t
  | u ∷ us ↦ each_polynomial_of optimize (with_front t.n_qubits (u ∷ us)) >>= λ out.
      some (remove_all_identities extract (record t { subtableaux = out }))
]
