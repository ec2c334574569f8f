-- ===== src/Tableau/Optimization/Identities.antt =====
-- The two overloads of `remove_identities`.
use qsyn.Prelude.{Bool, true, false, ◌||◌, List, [], ◌∷◌, map, if◌then◌else◌}
use qsyn.Prelude.Int.{pos}
use qsyn.Pauli.Product.{is_identity}
use qsyn.Pauli.Equality.{equal_product, equal_list}
use qsyn.Pauli.Rotation.{PauliRotation}
use qsyn.Pauli.Trait.{apply}
use qsyn.Tableau.Stabilizer.{StabilizerTableau, stabilizer_tableau, identity, n_qubits}
use qsyn.Tableau.SubTableaux.{SubTableau, clifford, rotations, Tableau, Extraction}
use qsyn.Util.Phase
use qsyn.Util.Phase.{phase_of}

-- `erase` of what `remove_if` moves to the end.
abbrev pub erase_if {ℓ} : {A : Type ℓ} → (A → Bool) → List A → List A
erase_if test [] = []
erase_if test (x ∷ xs) = if test x then erase_if test xs else x ∷ erase_if test xs

unfoldable pub is_trivial : PauliRotation → Bool
unfolding is_identity phase_of
is_trivial r = Phase.equal r.phase (phase_of (pos 0)) || is_identity r.product

unfoldable pub remove_identities : List PauliRotation → List PauliRotation
unfolding is_trivial
remove_identities rs = erase_if is_trivial rs

abbrev pub remove_inside : SubTableau → SubTableau
remove_inside (clifford t) = clifford t
remove_inside (rotations rs) = rotations (remove_identities rs)

-- `StabilizerTableau::is_identity`.
unfoldable pub is_identity_tableau : StabilizerTableau → Bool
unfolding equal_list equal_product identity
is_identity_tableau t = equal_list equal_product t.stabilizers (identity (n_qubits t)).stabilizers

abbrev pub is_redundant : SubTableau → Bool
is_redundant (clifford t) = is_identity_tableau t
is_redundant (rotations []) = true
is_redundant (rotations (r ∷ rs)) = false

abbrev pub is_identity_clifford : SubTableau → Bool
is_identity_clifford (clifford t) = is_identity_tableau t
is_identity_clifford (rotations rs) = false

-- The loop over the adjacent pairs, from the given sub-tableau on.
unfoldable pub merge_adjacent : Extraction → SubTableau → List SubTableau → List SubTableau
unfolding apply identity
merge_adjacent extract u [] = u ∷ []
merge_adjacent extract (clifford t) (clifford t' ∷ us) =
    clifford (apply t (extract t')) ∷ merge_adjacent extract (clifford (identity (n_qubits t))) us
merge_adjacent extract u (u' ∷ us) = u ∷ merge_adjacent extract u' us

abbrev pub merge_all_adjacent : Extraction → List SubTableau → List SubTableau
merge_all_adjacent extract [] = []
merge_all_adjacent extract (u ∷ us) = merge_adjacent extract u us

unfoldable pub remove_all_identities : Extraction → Tableau → Tableau
unfolding remove_identities is_identity_tableau merge_adjacent
remove_all_identities extract t =
    let kept = erase_if is_redundant (map remove_inside t.subtableaux) in
    record t { subtableaux = erase_if is_identity_clifford (merge_all_adjacent extract kept) }
