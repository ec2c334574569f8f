-- ===== src/Tableau/Optimization/Rotations/Sound.antt =====
-- The passes keep what they rely on: products over `n` qubits, without a sign and not the identity.
use qsyn.Prelude.{
  ℕ, zero, suc, ◌≡◌, ◌∙◌, refl, sym, subst, Bool, false, List, [], ◌∷◌, ◌++◌, map, length,
  Bool-cases, inl, inr,
}
use qsyn.Pauli.Equality.{equal_product}
use qsyn.Prelude.Int.{pos}
use qsyn.Pauli.Commute.{AllValid→AllDistinct}
use qsyn.Pauli.Gates.{n_qubits-h, n_qubits-s, n_qubits-cx}
use qsyn.Pauli.Generated.{AllDistinct, keep_apply}
use qsyn.Pauli.Identity.{is_identity-h, is_identity-s, is_identity-cx}
use qsyn.Pauli.Operator.{CliffordOperatorString}
use qsyn.Pauli.Rotation
use qsyn.Pauli.Trait.{apply}
use qsyn.Tableau.Optimization.Rotations
use qsyn.Tableau.Optimization.Rotations.Angles.{
  absorb_angle-apply, angle_string, angle_string-AllValid,
}
use qsyn.Tableau.Stabilizer.{StabilizerTableau}
use qsyn.Util.Phase.{Phase, phase_of}
use qsyn.Pauli.Product
use qsyn.Pauli.Product.{PauliProduct, n_qubits, is_identity}
use qsyn.Pauli.Rotation.{PauliRotation, normalize, is_commutative}
use qsyn.Tableau.Optimization.Identities.{remove_identities, is_trivial, erase_if}
use qsyn.Tableau.Optimization.Rotations.{
  merge_with, merge_rounds, merge_rotations, set_phase, ConjugationView, conjugation_view,
  absorb_angle, absorb_from, absorb_clifford_rotations, is_clifford_angle,
}
use qsyn.Tableau.Optimization.Rotations.Absorb.{IsSound, AllSound}
use qsyn.Tableau.Optimization.Rotations.Merge.{product-merge_with}
use qsyn.Util.Phase

module _ (n : ℕ) where
  erase_if-AllSound :
      (test : PauliRotation → Bool) (rs : List PauliRotation)
      → AllSound n rs
      → AllSound n (erase_if test rs)
  erase_if-AllSound test [] s = tt
  erase_if-AllSound test (r ∷ rs) s = elim (Bool-cases (test r)) [
    | inl h ↦ rw h (erase_if-AllSound test rs s.1)
    | inr h ↦ rw h (s.0, erase_if-AllSound test rs s.1)
  ]

  pub remove_identities-AllSound :
      (rs : List PauliRotation) → AllSound n rs → AllSound n (remove_identities rs)
  unfolding remove_identities
  remove_identities-AllSound rs s = erase_if-AllSound is_trivial rs s

  merge_with-AllSound :
      (r : PauliRotation) (us : List PauliRotation) → AllSound n us → AllSound n (merge_with r us).1
  unfolding merge_with
  merge_with-AllSound r [] s = tt
  merge_with-AllSound r (u ∷ us) s =
      let a = merge_with-AllSound (set_phase r (Phase.add r.phase u.phase)) us s.1 in
      let b = merge_with-AllSound r us s.1 in
      elim (Bool-cases (is_commutative r u)) [
        | inl h ↦ elim (Bool-cases (equal_product r.product u.product)) [
          | inl k ↦ rw (h, k) (s.0, a)
          | inr k ↦ rw (h, k) (s.0, b)
        ]
        | inr h ↦ rw h s
      ]

  merge_rounds-AllSound :
      (k : ℕ) (rs : List PauliRotation) → AllSound n rs → AllSound n (merge_rounds k rs)
  unfolding merge_rounds
  merge_rounds-AllSound zero rs s = s
  merge_rounds-AllSound (suc k) [] s = tt
  merge_rounds-AllSound (suc k) (r ∷ rs) s = (
    subst (IsSound n) (sym (product-merge_with n r rs)) s.0,
    merge_rounds-AllSound k (merge_with r rs).1 (merge_with-AllSound r rs s.1),
  )

  pub merge_rotations-AllSound :
      (rs : List PauliRotation) → AllSound n rs → AllSound n (merge_rotations rs)
  unfolding merge_rotations
  merge_rotations-AllSound rs s =
      remove_identities-AllSound (merge_rounds (length rs) rs)
        (merge_rounds-AllSound (length rs) rs s)

  normalize-IsSound :
      (p : PauliProduct) (θ : Phase)
      → n_qubits p ≡ n
      → is_identity p ≡ false
      → IsSound n (normalize (record { product = p; phase = θ })).product
  unfolding normalize is_identity
  normalize-IsSound p θ w some = elim (Bool-cases p.neg) [
    | inl e ↦ rw e (w, refl, some)
    | inr e ↦ rw e (w, refl, some)
  ]

  -- A gate that keeps the width and the letters keeps the rotations of a view sound.
  map-AllSound :
      (f : PauliProduct → PauliProduct)
      → ((p : PauliProduct) → n_qubits (f p) ≡ n_qubits p)
      → ((p : PauliProduct) → is_identity p ≡ false → is_identity (f p) ≡ false)
      → (rs : List PauliRotation) → AllSound n rs
      → AllSound n (map (λ r. normalize (record r { product = f r.product })) rs)
  map-AllSound f width some [] s = tt
  map-AllSound f width some (r ∷ rs) s = (
    normalize-IsSound (f r.product) r.phase (width r.product ∙ s.0.0) (some r.product s.0.2),
    map-AllSound f width some rs s.1,
  )

  apply-AllSound :
      (v : ConjugationView) (ops : CliffordOperatorString)
      → AllDistinct ops
      → AllSound n v.rotations
      → AllSound n (apply v ops).rotations
  unfolding Rotations.h Rotations.s Rotations.cx Rotation.h Rotation.s Rotation.cx
  apply-AllSound v ops d s =
      keep_apply (λ (a b c : ConjugationView). AllSound n a.rotations)
        (λ a b c q.
          map-AllSound (λ p. Product.h p q) (λ p. n_qubits-h p q) (λ p. is_identity-h p q)
            a.rotations)
        (λ a b c q.
          map-AllSound (λ p. Product.s p q) (λ p. n_qubits-s p q) (λ p. is_identity-s p q)
            a.rotations)
        (λ a b c i j ne.
          map-AllSound (λ p. Product.cx p i j) (λ p. n_qubits-cx p i j)
            (λ p. is_identity-cx p i j ne) a.rotations)
        ops v v v d s

  absorb_angle-AllSound :
      (θ : Phase) (r : PauliRotation) (v : ConjugationView)
      → n_qubits r.product ≡ n
      → AllSound n v.rotations
      → AllSound n (absorb_angle θ r v).rotations
  absorb_angle-AllSound θ r v w s = rw (absorb_angle-apply θ r v) (
      apply-AllSound v (angle_string θ r)
        (AllValid→AllDistinct n (angle_string θ r) (angle_string-AllValid n θ r w)) s)

  AllSound-snoc :
      (rs : List PauliRotation) (r : PauliRotation)
      → AllSound n rs
      → IsSound n r.product
      → AllSound n (rs ++ r ∷ [])
  AllSound-snoc [] r s h = (h, tt)
  AllSound-snoc (u ∷ us) r s h = (s.0, AllSound-snoc us r s.1 h)

  absorb_from-AllSound :
      (v : ConjugationView) (rs : List PauliRotation)
      → AllSound n v.rotations
      → AllSound n rs
      → AllSound n (absorb_from v rs).rotations
  unfolding absorb_from
  absorb_from-AllSound v [] s h = s
  absorb_from-AllSound v (r ∷ rs) s h =
      let v' = absorb_angle r.phase r v in
      let r' = set_phase r (phase_of (pos 0)) in
      elim (Bool-cases (is_clifford_angle r.phase)) [
        | inl e ↦ rw e (
            absorb_from-AllSound (record v' { rotations = v'.rotations ++ r' ∷ [] }) rs
              (AllSound-snoc v'.rotations r' (absorb_angle-AllSound r.phase r v h.0.0 s) h.0) h.1)
        | inr e ↦ rw e (
            absorb_from-AllSound (record v { rotations = v.rotations ++ r ∷ [] }) rs
              (AllSound-snoc v.rotations r s h.0) h.1)
      ]

  pub absorb_clifford_rotations-AllSound :
      (c : StabilizerTableau) (rs : List PauliRotation)
      → AllSound n rs
      → AllSound n (absorb_clifford_rotations c rs).1
  unfolding absorb_clifford_rotations
  absorb_clifford_rotations-AllSound c rs s =
      let v : ConjugationView = record { clifford = c; rotations = [] } in
      remove_identities-AllSound (absorb_from v rs).rotations (absorb_from-AllSound v rs tt s)
