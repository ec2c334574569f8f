-- ===== src/Tableau/Synthesis/HOpt.antt =====
-- `HOptSynthesisStrategy::synthesize`: it diagonalises the stabilizers first, and leaves the rest to
-- the strategy of Aaronson and Gottesman.
use qsyn.Prelude.{ℕ, zero, suc, ◌+◌, Bool, if◌then◌else◌, List, [], ◌∷◌, ◌++◌, reverse}
use qsyn.Pauli.Product
use qsyn.Pauli.Operator.{CliffordOperatorString, adjoint}
use qsyn.Tableau.Stabilizer.{StabilizerTableau, n_qubits, stabilizer}
use qsyn.Tableau.Synthesis.{Building, add_cx, add_h, add_s}
use qsyn.Tableau.Synthesis.AaronsonGottesman
use qsyn.Tableau.Synthesis.AaronsonGottesman.{start, qubits, stab_z_set}

pub data Mode : Type 0 where
  star staircase : Mode

-- `get_qubits_with_stabilizer_set`.
unfoldable pub qubits_set_from : ℕ → ℕ → Building → ℕ → List ℕ
qubits_set_from zero i b q = []
qubits_set_from (suc rounds) i b q =
    let rest = qubits_set_from rounds (i + 1) b q in
    if Product.is_x_set (stabilizer b.copy q) i then i ∷ rest else rest

-- One cx from the first qubit to each of the others.
abbrev pub add_star : ℕ → List ℕ → Building → Building
add_star ctrl [] b = b
add_star ctrl (targ ∷ targs) b = add_star ctrl targs (add_cx ctrl targ b)

-- One cx for each adjacent pair of the reversed list: `pairwise` yields `(t, c)`.
abbrev pub add_staircase : List ℕ → Building → Building
add_staircase [] b = b
add_staircase (t ∷ []) b = b
add_staircase (t ∷ c ∷ rest) b = add_staircase (c ∷ rest) (add_cx c t b)

abbrev pub add_cxs : Mode → ℕ → List ℕ → Building → Building
add_cxs star ctrl targs b = add_star ctrl targs b
add_cxs staircase ctrl targs b = add_staircase (reverse (ctrl ∷ targs)) b

abbrev pub diagonalize_on : Mode → ℕ → List ℕ → Building → Building
diagonalize_on mode i [] b = b
diagonalize_on mode i (ctrl ∷ targs) b =
    let b₁ = add_cxs mode ctrl targs b in
    let b₂ = if stab_z_set b₁ i ctrl then add_s ctrl b₁ else b₁ in add_h ctrl b₂

-- The body of the loop.
unfoldable pub diagonalize_row : Mode → ℕ → Building → Building
unfolding qubits_set_from
diagonalize_row mode i b = diagonalize_on mode i (qubits_set_from (qubits b) 0 b i) b

unfoldable pub diagonalize_from : Mode → (ℕ → Bool) → ℕ → ℕ → Building → Building
unfolding diagonalize_row
diagonalize_from mode stop zero i b = b
diagonalize_from mode stop (suc rounds) i b =
    let rest = diagonalize_from mode stop rounds (i + 1) (diagonalize_row mode i b) in
    if stop i then b else rest

unfoldable pub diagonalize : Mode → (ℕ → Bool) → StabilizerTableau → Building
unfolding diagonalize_from start
diagonalize mode stop t = diagonalize_from mode stop (n_qubits t) 0 (start t)

-- `stop` answers the calls of the loop and the one after it, `stop'` those of the second strategy.
unfoldable pub synthesize :
    Mode → (ℕ → Bool) → (ℕ → Bool) → StabilizerTableau → CliffordOperatorString
synthesize mode stop stop' t =
    let b = diagonalize mode stop t in
    if stop (n_qubits t)
    then []
    else AaronsonGottesman.synthesize stop' b.copy ++ adjoint b.clifford_ops
