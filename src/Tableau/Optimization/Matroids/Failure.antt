-- ===== src/Tableau/Optimization/Matroids/Failure.antt =====
-- When `matroid_partition` of a tableau fails.
use qsyn.Prelude.{
  ℕ, ◌≡◌, ◌≢◌, ◌↔◌, refl, ap, subst, sym, ◌∙◌, bools_differ, Bool, true, false, not, ◌&&◌, ◌||◌,
  ◌==◌, ==_iff, Option, none, some, List, [], ◌∷◌, length, Bool-cases, Option-cases, inl, inr,
  arith,
}
use qsyn.Pauli.Product.{Site, n_qubits, is_diagonal, all_sites}
use qsyn.Pauli.Rotation
use qsyn.Pauli.Rotation.{PauliRotation}
use qsyn.Tableau.SubTableaux.{SubTableau, clifford, rotations, Tableau}
use qsyn.Tableau.Optimization.Matroids.{
  MatroidPartitionStrategy, matroid_partition, partition_list, matroid_partition_tableau,
}
use qsyn.Tableau.Optimization.Passes.{all, is_phase_polynomial}

-- Only the letters I and Z.
abbrev pub IsOfZ : List Site → Type 0
IsOfZ [] = Unit
IsOfZ (a ∷ as') = (a.x_set ≡ false) × IsOfZ as'

-- Rotations about products of I and Z on `n` qubits.
abbrev pub AllOfZ : ℕ → List PauliRotation → Type 0
AllOfZ n [] = Unit
AllOfZ n (r ∷ rs) = (length r.product.sites ≡ n) × IsOfZ r.product.sites × AllOfZ n rs

-- Each list of rotations of a tableau is about products of I and Z on one number of qubits.
abbrev pub AllPolynomials : List SubTableau → Type 0
AllPolynomials [] = Unit
AllPolynomials (clifford t ∷ us) = AllPolynomials us
AllPolynomials (rotations rs ∷ us) = ((n : ℕ) × AllOfZ n rs) × AllPolynomials us

-- No list of rotations is empty.
abbrev pub NoneEmpty : List SubTableau → Type 0
NoneEmpty [] = Unit
NoneEmpty (clifford t ∷ us) = NoneEmpty us
NoneEmpty (rotations rs ∷ us) = (rs ≢ []) × NoneEmpty us

abbrev no_x : Site → Bool
no_x a = (not a.z_set && not a.x_set) || (a.z_set && not a.x_set)

sites_iff : (as' : List Site) → (all_sites no_x as' ≡ true) ↔ IsOfZ as'
sites_iff [] = ground arith
sites_iff (a ∷ as') = ground (arith, sites_iff as')

diagonal_iff : (r : PauliRotation) → (Rotation.is_diagonal r ≡ true) ↔ IsOfZ r.product.sites
unfolding is_diagonal
diagonal_iff r = sites_iff r.product.sites

all_iff :
    (n : ℕ) (rs : List PauliRotation)
    → (all Rotation.is_diagonal rs && all (λ u. n_qubits u.product == n) rs ≡ true) ↔ AllOfZ n rs
all_iff n [] = ground arith
all_iff n (r ∷ rs) = ground (arith, all_iff n rs, diagonal_iff r, ==_iff (length r.product.sites) n)

same_number :
    (n : ℕ) (r : PauliRotation) (rs : List PauliRotation)
    → AllOfZ n (r ∷ rs)
    → AllOfZ (n_qubits r.product) (r ∷ rs)
same_number n r rs h = subst (λ m. AllOfZ m (r ∷ rs)) (sym h.0) h

some_iff : (b : Bool) → (some b ≡ some true) ↔ (b ≡ true)
some_iff true = (λ e. refl, λ e. refl)
some_iff false = ground arith

-- The test on a list that is not empty.
polynomial_iff :
    (rs : List PauliRotation)
    → rs ≢ []
    → (is_phase_polynomial rs ≡ some true) ↔ ((n : ℕ) × AllOfZ n rs)
unfolding is_phase_polynomial
polynomial_iff [] shown = absurd (shown refl)
polynomial_iff (r ∷ rs) shown =
    let n = n_qubits r.product in
    let here =
      some_iff (all Rotation.is_diagonal (r ∷ rs) && all (λ u. n_qubits u.product == n) (r ∷ rs)) in
    let there = all_iff n (r ∷ rs) in
    (λ e. (n, there.0 (here.0 e)), λ (m, h). here.1 (there.1 (same_number m r rs h)))

abbrev is_sure : Option Bool → Bool
is_sure none = false
is_sure (some b) = b

abbrev all_tested : List SubTableau → Bool
all_tested [] = true
all_tested (clifford t ∷ us) = all_tested us
all_tested (rotations rs ∷ us) = is_sure (is_phase_polynomial rs) && all_tested us

is_sure_iff : (o : Option Bool) → (is_sure o ≡ true) ↔ (o ≡ some true)
is_sure_iff none = ground arith
is_sure_iff (some b) = (λ e. ap some e, (some_iff b).0)

all_tested_iff : (us : List SubTableau) → NoneEmpty us → (all_tested us ≡ true) ↔ AllPolynomials us
all_tested_iff [] h = ground arith
all_tested_iff (clifford t ∷ us) h = all_tested_iff us h
all_tested_iff (rotations rs ∷ us) h =
    let test = is_sure_iff (is_phase_polynomial rs) in
    let one = polynomial_iff rs h.0 in
    let rest = all_tested_iff us h.1 in
    (
      λ e. (one.0 (test.0 (and_left _ _ e)), rest.0 (and_right _ _ e)),
      λ (here, there). rw (test.1 (one.1 here), rest.1 there) refl,
    )
  where
    and_left : (a b : Bool) → a && b ≡ true → a ≡ true
    and_left a b e = ground (arith, e)

    and_right : (a b : Bool) → a && b ≡ true → b ≡ true
    and_right a b e = ground (arith, e)

partition_list-none :
    (partition : MatroidPartitionStrategy) (k : ℕ) (us : List SubTableau)
    → (partition_list partition k us ≡ none) ↔ (all_tested us ≡ false)
unfolding partition_list matroid_partition
partition_list-none partition k [] = ground arith
partition_list-none partition k (clifford t ∷ us) =
    ground (arith, partition_list-none partition k us, Option-cases (partition_list partition k us))
partition_list-none partition k (rotations rs ∷ us) = ground (
  arith,
  partition_list-none partition k us,
  Option-cases (partition_list partition k us),
  Option-cases (is_phase_polynomial rs),
)

-- For a tableau without an empty list of rotations, with any strategy, the partition fails exactly if
-- not each list is about products of I and Z on one number of qubits.
pub matroid_partition_tableau-none :
    (t : Tableau) (partition : MatroidPartitionStrategy) (k : ℕ)
    → NoneEmpty t.subtableaux
    → (matroid_partition_tableau t partition k ≡ none) ↔ ¬ AllPolynomials t.subtableaux
unfolding matroid_partition_tableau
matroid_partition_tableau-none t partition k shown =
    let listed = partition_list-none partition k t.subtableaux in
    let tests = all_tested_iff t.subtableaux shown in
    let whole : (matroid_partition_tableau t partition k ≡ none)
        ↔ (partition_list partition k t.subtableaux ≡ none) =
      ground (arith, Option-cases (partition_list partition k t.subtableaux)) in
    (
      λ e every. bools_differ (sym (listed.0 (whole.0 e)) ∙ tests.1 every),
      λ refused. elim (Bool-cases (all_tested t.subtableaux)) [
        | inl e ↦ absurd (refused (tests.0 e))
        | inr e ↦ whole.1 (listed.1 e)
      ],
    )
