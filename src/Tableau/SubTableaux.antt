-- ===== src/Tableau/SubTableaux.antt =====
-- src/tableau/tableau.{hpp,cpp}: `SubTableau` and `Tableau`, a circuit of Cliffords and rotations.
use qsyn.Prelude.{
  ℕ, suc, ◌+◌, Bool, true, false, List, [], ◌∷◌, map, reverse, length, if◌then◌else◌,
}
use qsyn.Pauli.Operator.{CliffordOperatorString}
use qsyn.Pauli.Operator
use qsyn.Pauli.Rotation
use qsyn.Pauli.Rotation.{PauliRotation}
use qsyn.Pauli.Trait.{PauliProductTrait, apply}
use qsyn.Tableau.Stabilizer
use qsyn.Tableau.Stabilizer.{StabilizerTableau, stabilizer_tableau, identity}
use qsyn.Util.Phase.{scale, minus_one}

-- `std::variant<StabilizerTableau, std::vector<PauliRotation>>`.
pub data SubTableau : Type 0 where
  clifford : StabilizerTableau → SubTableau
  rotations : List PauliRotation → SubTableau

-- The file name and the list of procedures are left out.
pub record Tableau : Type 0 where
  pub subtableaux : List SubTableau
  pub n_qubits : ℕ

-- `extract_clifford_operators` of a stabilizer tableau, with the strategy that it is given.
abbrev pub Extraction : Type 0
Extraction = StabilizerTableau → CliffordOperatorString

-- `Tableau(n_qubits)`.
abbrev pub of_qubits : ℕ → Tableau
of_qubits n = record { subtableaux = clifford (identity n) ∷ []; n_qubits = n }

abbrev pub is_clifford : SubTableau → Bool
is_clifford (clifford t) = true
is_clifford (rotations rs) = false

abbrev pub rotation_count : SubTableau → ℕ
rotation_count (clifford t) = 0
rotation_count (rotations rs) = length rs

abbrev pub count_cliffords : List SubTableau → ℕ
count_cliffords [] = 0
count_cliffords (u ∷ us) = if is_clifford u then suc (count_cliffords us) else count_cliffords us

unfoldable pub n_cliffords : Tableau → ℕ
n_cliffords t = count_cliffords t.subtableaux

abbrev pub sum_rotations : List SubTableau → ℕ
sum_rotations [] = 0
sum_rotations (u ∷ us) = rotation_count u + sum_rotations us

unfoldable pub n_pauli_rotations : Tableau → ℕ
n_pauli_rotations t = sum_rotations t.subtableaux

-- The loop of h, s and cx, on the list from its end: it stops after the first Clifford.
unfoldable pub until_clifford :
    (StabilizerTableau → StabilizerTableau)
    → (PauliRotation → PauliRotation)
    → List SubTableau
    → List SubTableau
until_clifford f g [] = []
until_clifford f g (clifford t ∷ us) = clifford (f t) ∷ us
until_clifford f g (rotations rs ∷ us) = rotations (map g rs) ∷ until_clifford f g us

unfoldable pub from_back :
    (StabilizerTableau → StabilizerTableau) → (PauliRotation → PauliRotation) → Tableau → Tableau
unfolding until_clifford
from_back f g t = record t { subtableaux = reverse (until_clifford f g (reverse t.subtableaux)) }

abbrev pub h : Tableau → ℕ → Tableau
h t q = from_back (λ u. Stabilizer.h u q) (λ r. Rotation.h r q) t

abbrev pub s : Tableau → ℕ → Tableau
s t q = from_back (λ u. Stabilizer.s u q) (λ r. Rotation.s r q) t

abbrev pub cx : Tableau → ℕ → ℕ → Tableau
cx t c d = from_back (λ u. Stabilizer.cx u c d) (λ r. Rotation.cx r c d) t

instance abbrev pub tableau : PauliProductTrait Tableau
tableau = record { h = h; s = s; cx = cx }

-- `adjoint` of a stabilizer tableau, of a sub-tableau and of a tableau.
unfoldable pub adjoint_clifford : Extraction → StabilizerTableau → StabilizerTableau
unfolding apply identity
adjoint_clifford extract t = apply (identity (Stabilizer.n_qubits t)) (Operator.adjoint (extract t))

unfoldable pub opposite : PauliRotation → PauliRotation
unfolding scale
opposite r = record r { phase = scale r.phase minus_one }

unfoldable pub adjoint_rotations : List PauliRotation → List PauliRotation
unfolding opposite
adjoint_rotations rs = reverse (map opposite rs)

unfoldable pub adjoint_subtableau : Extraction → SubTableau → SubTableau
unfolding adjoint_clifford adjoint_rotations
adjoint_subtableau extract (clifford t) = clifford (adjoint_clifford extract t)
adjoint_subtableau extract (rotations rs) = rotations (adjoint_rotations rs)

unfoldable pub adjoint : Extraction → Tableau → Tableau
unfolding adjoint_subtableau
adjoint extract t = record t {
  subtableaux = map (adjoint_subtableau extract) (reverse t.subtableaux);
}
