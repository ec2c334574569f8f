-- ===== src/Tableau/Optimization/Rotations/Count.antt =====
-- No pass adds a rotation.
use qsyn.Prelude.{
  ℕ, zero, suc, ◌+◌, ◌≤◌, ◌≡◌, refl, ◌∙◌, ap, Bool, List, [], ◌∷◌, ◌++◌, length, length-append,
  length-map, Bool-cases, inl, inr, arith,
}
use qsyn.Pauli.Equality.{equal_product}
use qsyn.Pauli.Operator.{CliffordOperatorType, CliffordOperatorString}
use qsyn.Pauli.Rotation.{PauliRotation, is_commutative}
use qsyn.Pauli.Trait.{apply, apply_operator, dispatch}
use qsyn.Tableau.Optimization.Identities.{remove_identities, is_trivial, erase_if}
use qsyn.Tableau.Optimization.Rotations
use qsyn.Tableau.Optimization.Rotations.{
  ConjugationView, conjugation_view, merge_with, merge_rounds, merge_rotations, absorb_angle,
  absorb_from, absorb_clifford_rotations, is_clifford_angle, set_phase,
}
use qsyn.Prelude.Int.{pos}
use qsyn.Tableau.Optimization.Rotations.Angles.{absorb_angle-apply, angle_string}
use qsyn.Tableau.Stabilizer.{StabilizerTableau}
use qsyn.Util.Phase
use qsyn.Util.Phase.{Phase, phase_of}

length-erase_if {ℓ} :
    {A : Type ℓ} (test : A → Bool) (xs : List A) → length (erase_if test xs) ≤ length xs
length-erase_if test [] = omega arith
length-erase_if test (x ∷ xs) = ground (arith, length-erase_if test xs)

pub length-remove_identities : (rs : List PauliRotation) → length (remove_identities rs) ≤ length rs
unfolding remove_identities
length-remove_identities rs = length-erase_if is_trivial rs

length-merge_with :
    (r : PauliRotation) (us : List PauliRotation) → length (merge_with r us).1 ≡ length us
unfolding merge_with
length-merge_with r [] = refl
length-merge_with r (u ∷ us) =
    let a = length-merge_with (set_phase r (Phase.add r.phase u.phase)) us in
    let b = length-merge_with r us in
    elim (Bool-cases (is_commutative r u)) [
      | inl h ↦ elim (Bool-cases (equal_product r.product u.product)) [
        | inl k ↦ rw (h, k) (ap suc a)
        | inr k ↦ rw (h, k) (ap suc b)
      ]
      | inr h ↦ rw h refl
    ]

length-merge_rounds : (k : ℕ) (rs : List PauliRotation) → length (merge_rounds k rs) ≡ length rs
unfolding merge_rounds
length-merge_rounds zero rs = refl
length-merge_rounds (suc k) [] = refl
length-merge_rounds (suc k) (r ∷ rs) =
    ap suc (length-merge_rounds k (merge_with r rs).1 ∙ length-merge_with r rs)

pub length-merge_rotations : (rs : List PauliRotation) → length (merge_rotations rs) ≤ length rs
unfolding merge_rotations
length-merge_rotations rs = omega (
  arith,
  length-remove_identities (merge_rounds (length rs) rs),
  length-merge_rounds (length rs) rs,
)

-- The number of rotations in a view.
abbrev count : ConjugationView → ℕ
count v = length v.rotations

count-h : (v : ConjugationView) (q : ℕ) → count (Rotations.h v q) ≡ count v
unfolding Rotations.h
count-h v q = length-map v.rotations _

count-s : (v : ConjugationView) (q : ℕ) → count (Rotations.s v q) ≡ count v
unfolding Rotations.s
count-s v q = length-map v.rotations _

count-cx : (v : ConjugationView) (c t : ℕ) → count (Rotations.cx v c t) ≡ count v
unfolding Rotations.cx
count-cx v c t = length-map v.rotations _

ruleset counts = (count-h, count-s, count-cx)

count-dispatch :
    (ty : CliffordOperatorType) (v : ConjugationView) (a b : ℕ)
    → count (dispatch ty v a b) ≡ count v
count-dispatch CliffordOperatorType.h v a b = simp counts
count-dispatch CliffordOperatorType.s v a b = simp counts
count-dispatch CliffordOperatorType.cx v a b = simp counts
count-dispatch CliffordOperatorType.sdg v a b = simp counts
count-dispatch CliffordOperatorType.v v a b = simp counts
count-dispatch CliffordOperatorType.vdg v a b = simp counts
count-dispatch CliffordOperatorType.x v a b = simp counts
count-dispatch CliffordOperatorType.y v a b = simp counts
count-dispatch CliffordOperatorType.z v a b = simp counts
count-dispatch CliffordOperatorType.cz v a b = simp counts
count-dispatch CliffordOperatorType.swap v a b = simp counts
count-dispatch CliffordOperatorType.ecr v a b = simp counts

pub count-apply :
    (v : ConjugationView) (ops : CliffordOperatorString) → count (apply v ops) ≡ count v
unfolding apply apply_operator
count-apply v [] = refl
count-apply v (op ∷ ops) =
    count-apply (apply_operator v op) ops ∙ count-dispatch op.type v op.qubit₀ op.qubit₁

count-absorb_angle :
    (θ : Phase) (r : PauliRotation) (v : ConjugationView) → count (absorb_angle θ r v) ≡ count v
count-absorb_angle θ r v = ap count (absorb_angle-apply θ r v) ∙ count-apply v (angle_string θ r)

count-absorb_from :
    (v : ConjugationView) (rs : List PauliRotation) → count (absorb_from v rs) ≡ count v + length rs
unfolding absorb_from
count-absorb_from v [] = omega arith
count-absorb_from v (r ∷ rs) =
    let v' = absorb_angle r.phase r v in
    let r' = set_phase r (phase_of (pos 0)) in
    let skipped = count-absorb_from (record v { rotations = v.rotations ++ r ∷ [] }) rs in
    let absorbed = count-absorb_from (record v' { rotations = v'.rotations ++ r' ∷ [] }) rs in
    elim (Bool-cases (is_clifford_angle r.phase)) [
      | inl h ↦ rw h (
          omega
            (arith, absorbed, length-append v'.rotations (r' ∷ []), count-absorb_angle r.phase r v))
      | inr h ↦ rw h (omega (arith, skipped, length-append v.rotations (r ∷ [])))
    ]

pub length-absorb_clifford_rotations :
    (c : StabilizerTableau) (rs : List PauliRotation)
    → length (absorb_clifford_rotations c rs).1 ≤ length rs
unfolding absorb_clifford_rotations
length-absorb_clifford_rotations c rs =
    let v : ConjugationView = record { clifford = c; rotations = [] } in
    omega (arith, length-remove_identities (absorb_from v rs).rotations, count-absorb_from v rs)
