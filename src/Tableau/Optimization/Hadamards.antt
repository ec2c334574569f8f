-- ===== src/Tableau/Optimization/Hadamards.antt =====
-- src/tableau/optimize/internal_h_opt.cpp: the minimization of the internal Hadamard gates.
use qsyn.Prelude.{
  ℕ, ◌+◌, ◌-◌, Bool, not, List, [], ◌∷◌, ◌++◌, map, reverse, if◌then◌else◌, none, some, find_from,
  for_range,
}
use qsyn.Pauli.Equality.{equal_list, equal_rotation}
use qsyn.Pauli.Operator
use qsyn.Pauli.Operator.{CliffordOperator, CliffordOperatorString, adjoint_operator}
use qsyn.Pauli.Product
use qsyn.Pauli.Rotation.{PauliRotation, pauli_rotation, rotation, extract_clifford_operators}
use qsyn.Pauli.Trait.{apply}
use qsyn.Tableau.Stabilizer.{
  StabilizerTableau, stabilizer_tableau, identity, n_qubits, stabilizer, prepend_operator,
}
use qsyn.Tableau.SubTableaux.{
  SubTableau, clifford, rotations, Tableau, Extraction, of_qubits, adjoint, adjoint_clifford,
}
use qsyn.Tableau.Synthesis.{Building, add_cx, add_h, add_s}
use qsyn.Tableau.Optimization.Identities.{remove_all_identities}
use qsyn.Tableau.Optimization.Passes.{collapse}
use qsyn.Util.Phase.{Phase}

-- `StabilizerTableau{n_qubits}.apply(clifford)`.
abbrev pub applied : ℕ → CliffordOperatorString → SubTableau
applied n ops = clifford (apply (identity n) ops)

-- The cases II and III: the operators pass before the last list of rotations.
unfoldable pub put_before : CliffordOperatorString → ℕ → List SubTableau → List SubTableau
unfolding apply identity
put_before ops n (clifford t ∷ us) = clifford (apply t ops) ∷ us
put_before ops n us = applied n ops ∷ us

-- `apply_clifford`, on the sub-tableaux from the last.
unfoldable pub apply_clifford : CliffordOperatorString → ℕ → List SubTableau → List SubTableau
unfolding apply identity equal_list equal_rotation put_before
apply_clifford [] n us = us
apply_clifford (op ∷ ops) n [] = applied n (op ∷ ops) ∷ []
apply_clifford (op ∷ ops) n (clifford t ∷ us) = clifford (apply t (op ∷ ops)) ∷ us
apply_clifford (op ∷ ops) n (rotations rs ∷ us) =
    let copy_rotations = map (λ r. apply r (op ∷ ops)) rs in
    if not (equal_list equal_rotation copy_rotations rs)
    then applied n (op ∷ ops) ∷ rotations rs ∷ us
    else rotations rs ∷ put_before (op ∷ ops) n us

-- The stabilizer that `std::ref` points to, as it is now.
abbrev pub is_stab_x_set : ℕ → Building → ℕ → Bool
is_stab_x_set qubit b i = Product.is_x_set (stabilizer b.copy qubit) i

-- The gates that `implement_into_tableau` applies to the context and records.
unfoldable pub diagonalize_at : ℕ → ℕ → Building → Building
unfolding for_range add_cx add_h add_s
diagonalize_at qubit ctrl b =
    let n = n_qubits b.copy in
    let b₁ =
      for_range (n - (ctrl + 1)) (ctrl + 1)
        (λ targ b'. if is_stab_x_set qubit b' targ then add_cx ctrl targ b' else b') b in
    let b₂ = if Product.is_z_set (stabilizer b₁.copy qubit) ctrl then add_s ctrl b₁ else b₁ in
    add_h ctrl b₂

unfoldable pub diagonalize_stabilizer : ℕ → StabilizerTableau → Building
unfolding find_from diagonalize_at
diagonalize_stabilizer qubit context =
    let b : Building = record { copy = context; clifford_ops = [] } in
    elim (find_from (n_qubits context) 0 (is_stab_x_set qubit b)) [
      | none ↦ b
      | some ctrl ↦ diagonalize_at qubit ctrl b
    ]

-- The rotation goes to the list of rotations at the end, or starts one.
abbrev pub push_rotation : PauliRotation → List SubTableau → List SubTableau
push_rotation r (rotations rs ∷ us) = rotations (rs ++ r ∷ []) ∷ us
push_rotation r us = rotations (r ∷ []) ∷ us

unfoldable pub implement_into_tableau :
    List SubTableau → StabilizerTableau → ℕ → Phase → List SubTableau × StabilizerTableau
unfolding diagonalize_stabilizer apply_clifford rotation
implement_into_tableau us context qubit θ =
    let b = diagonalize_stabilizer qubit context in
    let r = rotation (stabilizer b.copy qubit) θ in
    (push_rotation r (apply_clifford b.clifford_ops (n_qubits b.copy) us), b.copy)

-- `context.prepend(adjoint(op))` for each operator in turn.
unfoldable pub prepend_adjoints : StabilizerTableau → CliffordOperatorString → StabilizerTableau
unfolding prepend_operator adjoint_operator
prepend_adjoints context [] = context
prepend_adjoints context (op ∷ ops) =
    prepend_adjoints (prepend_operator context (adjoint_operator op)) ops

-- The loop of `minimize_hadamards`, on the new tableau from its end.
unfoldable pub implement_all :
    List PauliRotation → List SubTableau → StabilizerTableau → List SubTableau × StabilizerTableau
unfolding extract_clifford_operators prepend_adjoints implement_into_tableau Operator.adjoint
implement_all [] us context = (us, context)
implement_all (r ∷ rs) us context =
    let e = extract_clifford_operators r in
    let step = implement_into_tableau us (prepend_adjoints context e.0) e.1 r.phase in
    implement_all rs step.0 (prepend_adjoints step.1 (Operator.adjoint e.0))

-- The collapsed tableau: the initial Clifford, and the rotations after it.
unfoldable pub minimize_collapsed :
    Extraction → List SubTableau → StabilizerTableau → Tableau × StabilizerTableau
unfolding prepend_adjoints implement_all
minimize_collapsed extract (clifford t ∷ rotations rs ∷ us) context =
    let context₁ = prepend_adjoints context (extract t) in
    let start = of_qubits (n_qubits context₁) in
    let out = implement_all rs (reverse start.subtableaux) context₁ in
    (record start { subtableaux = reverse out.0 }, out.1)
minimize_collapsed extract (clifford t ∷ []) context =
    let context₁ = prepend_adjoints context (extract t) in (of_qubits (n_qubits context₁), context₁)
minimize_collapsed extract us context = (of_qubits (n_qubits context), context)

unfoldable pub minimize_hadamards :
    Extraction → Tableau → StabilizerTableau → Tableau × StabilizerTableau
unfolding collapse minimize_collapsed
minimize_hadamards extract t context =
    minimize_collapsed extract (collapse extract t).subtableaux context

abbrev pub front_clifford : ℕ → List SubTableau → StabilizerTableau
front_clifford n (clifford t ∷ us) = t
front_clifford n us = identity n

unfoldable pub minimize_internal_hadamards : Extraction → Tableau → Tableau
unfolding collapse prepend_adjoints minimize_hadamards adjoint adjoint_clifford
    remove_all_identities identity
minimize_internal_hadamards extract t = elim t.subtableaux [
  | [] ↦ t
  | _ ∷ _ ↦
      let t₁ = collapse extract t in
      let context =
        prepend_adjoints (identity t.n_qubits)
          (extract (front_clifford t.n_qubits t₁.subtableaux)) in
      let there = minimize_hadamards extract (adjoint extract t₁) context in
      let back = minimize_hadamards extract t₁ there.1 in
      remove_all_identities extract (record back.0 {
        subtableaux =
            clifford there.1 ∷ back.0.subtableaux
            ++ clifford (adjoint_clifford extract back.1) ∷ [];
      })
]
