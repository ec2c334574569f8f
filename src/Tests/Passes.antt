-- ===== src/Tests/Passes.antt =====
-- Rotations and the passes over tableaux at concrete inputs.
use qsyn.Prelude.{ℕ, ◌<◌, ◌≤◌, ◌≡◌, ◌↔◌, refl, arith, Bool, true, false, List, [], ◌∷◌, ◌++◌, none}
use qsyn.Prelude.Int.{pos}
use qsyn.Pauli.Gates.{pauli_product}
use qsyn.Pauli.Product.{Site, PauliProduct, is_identity}
use qsyn.Pauli.Rotation.{PauliRotation, extract_clifford_operators}
use qsyn.Pauli.Rotation.Extraction.Cx.{z_on}
use qsyn.Pauli.Rotation.Extraction.{apply-extract_clifford_operators}
use qsyn.Pauli.Trait.{apply}
use qsyn.Tableau.Optimization.Matroids.NonEmpty.{none_empty, none_empty-naive_partition}
use qsyn.Tableau.Optimization.Matroids.{is_independent, naive_partition, matroid_partition_tableau}
use qsyn.Tableau.Optimization.Matroids.Partition.{join, AllParts, join-naive_partition}
use qsyn.Tableau.Optimization.Matroids.Failure.{
  AllPolynomials, NoneEmpty, matroid_partition_tableau-none,
}
use qsyn.Tableau.Optimization.Passes.{Pass, collapse, merge_loop, merge_rotations_tableau}
use qsyn.Tableau.Optimization.Passes.Collapse.{
  IsCollapsed, collapse-IsCollapsed, n_pauli_rotations-merge_rotations,
}
use qsyn.Tableau.Optimization.Passes.Loop.{Runs, merge_loop-Runs}
use qsyn.Tableau.Optimization.Pipeline.{optimize_loop, Rounds, optimize_loop-Rounds}
use qsyn.Tableau.Optimization.Rotations.{merge_rotations, make_proper, proper_fuel, minus_half}
use qsyn.Tableau.Stabilizer.{identity}
use qsyn.Tableau.SubTableaux.{clifford, rotations, Tableau, Extraction, n_pauli_rotations}
use qsyn.Tableau.Synthesis.HOpt
use qsyn.Tableau.Synthesis.HOpt.{Mode}
use qsyn.Util.Phase.{Phase, phase, phase_of}

abbrev letter_i : Site
letter_i = record { z_set = false; x_set = false }

abbrev letter_x : Site
letter_x = record { z_set = false; x_set = true }

abbrev letter_y : Site
letter_y = record { z_set = true; x_set = true }

abbrev letter_z : Site
letter_z = record { z_set = true; x_set = false }

abbrev over : List Site → PauliProduct
over as' = record { sites = as'; neg = false }

abbrev angle : ℕ → ℕ → Phase
angle n d = record { rational = record { numerator = pos n; denominator = d } }

abbrev xy_half : PauliRotation
xy_half = record { product = over (letter_x ∷ letter_y ∷ []); phase = angle 1 2 }

abbrev zi_quarter : PauliRotation
zi_quarter = record { product = over (letter_z ∷ letter_i ∷ []); phase = angle 1 4 }

abbrev iz_quarter : PauliRotation
iz_quarter = record { product = over (letter_i ∷ letter_z ∷ []); phase = angle 1 4 }

abbrev three : List PauliRotation
three = zi_quarter ∷ iz_quarter ∷ zi_quarter ∷ []

-- The quarters about ZI become a half.
three_merged : merge_rotations three ≡ record zi_quarter { phase = angle 1 2 } ∷ iz_quarter ∷ []
unfolding merge_rotations
three_merged = refl

abbrev strategy : Extraction
strategy = HOpt.synthesize Mode.star (λ k. false) (λ k. false)

abbrev same_polynomial : Pass
same_polynomial c rs = (c, rs)

abbrev two_lists : Tableau
two_lists = record {
  subtableaux = rotations three ∷ clifford (identity 2) ∷ rotations (xy_half ∷ []) ∷ [];
  n_qubits = 2;
}

two_lists_count : n_pauli_rotations two_lists ≡ 4
unfolding n_pauli_rotations
two_lists_count = refl

xy_half_some : is_identity xy_half.product ≡ false
unfolding is_identity
xy_half_some = refl

apply-extract_clifford_operators_example :
    apply xy_half.product (extract_clifford_operators xy_half).0
    ≡ z_on 2 (extract_clifford_operators xy_half).1
apply-extract_clifford_operators_example =
    apply-extract_clifford_operators xy_half refl xy_half_some

merge_loop-Runs_example : Runs (identity 2) three (merge_loop 4 (identity 2) three)
merge_loop-Runs_example = merge_loop-Runs 4 (identity 2) three (omega arith)

optimize_loop-Rounds_example :
    Rounds strategy same_polynomial two_lists (optimize_loop 5 strategy same_polynomial two_lists)
optimize_loop-Rounds_example =
    optimize_loop-Rounds 5 strategy same_polynomial two_lists (omega (arith, two_lists_count))

collapse-IsCollapsed_example :
    IsCollapsed two_lists.subtableaux (collapse strategy two_lists).subtableaux
collapse-IsCollapsed_example = collapse-IsCollapsed strategy two_lists

n_pauli_rotations-merge_rotations_example :
    n_pauli_rotations (merge_rotations_tableau strategy two_lists) ≤ n_pauli_rotations two_lists
n_pauli_rotations-merge_rotations_example = n_pauli_rotations-merge_rotations strategy two_lists

join-naive_partition_example :
    (join (naive_partition three 0) ≡ three) × AllParts 0 (naive_partition three 0)
join-naive_partition_example = join-naive_partition three 0

-- The second term about ZI depends on the first.
three_partition : naive_partition three 0 ≡ (zi_quarter ∷ iz_quarter ∷ []) ∷ (zi_quarter ∷ []) ∷ []
unfolding naive_partition qsyn.Prelude.find_from qsyn.Util.BooleanMatrix.row_equal
    qsyn.Util.BooleanMatrix.row_operation qsyn.Util.BooleanMatrix.row_add
three_partition = refl

abbrev ii_quarter : PauliRotation
ii_quarter = record { product = over (letter_i ∷ letter_i ∷ []); phase = angle 1 4 }

-- A rotation about the identity at the front leaves an empty part before it.
empty_part : naive_partition (ii_quarter ∷ []) 0 ≡ [] ∷ (ii_quarter ∷ []) ∷ []
unfolding naive_partition qsyn.Prelude.find_from qsyn.Util.BooleanMatrix.row_equal
    qsyn.Util.BooleanMatrix.row_operation qsyn.Util.BooleanMatrix.row_add
empty_part = refl

two_lists-NoneEmpty : NoneEmpty two_lists.subtableaux
two_lists-NoneEmpty = (λ e. ground (arith, e), (λ e. ground (arith, e), tt))

matroid_partition_tableau-none_example :
    (matroid_partition_tableau two_lists naive_partition 0 ≡ none)
    ↔ ¬ AllPolynomials two_lists.subtableaux
matroid_partition_tableau-none_example =
    matroid_partition_tableau-none two_lists naive_partition 0 two_lists-NoneEmpty

-- The phase that takes most rounds: -1/2, then 1, 1/2 and 0.
minus_half_proper :
    make_proper proper_fuel minus_half (phase_of (pos 0)) ≡ (phase_of (pos 0), minus_half)
unfolding make_proper phase phase_of
minus_half_proper = refl

zi_quarter_independent : is_independent (zi_quarter ∷ []) 0 ≡ true
unfolding is_independent qsyn.Prelude.find_from qsyn.Util.BooleanMatrix.row_equal
    qsyn.Util.BooleanMatrix.row_operation qsyn.Util.BooleanMatrix.row_add
zi_quarter_independent = refl

none_empty-naive_partition_example : none_empty (naive_partition three 0) ≡ true
none_empty-naive_partition_example =
    none_empty-naive_partition zi_quarter (iz_quarter ∷ zi_quarter ∷ []) 0 zi_quarter_independent
