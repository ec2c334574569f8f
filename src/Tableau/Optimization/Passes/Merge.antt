-- ===== src/Tableau/Optimization/Passes/Merge.antt =====
-- The do-while loop of `merge_rotations` on a tableau keeps the circuit.
use qsyn.Prelude.{ℕ, List}
use qsyn.Pauli.Rotation.{PauliRotation}
use qsyn.Tableau.Equivalence.{Same, items_of}
use qsyn.Tableau.Optimization.Rotations.Absorb.{AllSound}
use qsyn.Tableau.Stabilizer.{StabilizerTableau}

-- The circuit is the same, and the rotations are again what the passes rely on.
abbrev pub Keeps :
    ℕ → StabilizerTableau → List PauliRotation → StabilizerTableau × List PauliRotation → Type 0
Keeps n c rs out = Same n c (items_of rs) out.0 (items_of out.1) × AllSound n out.1
