-- ===== src/Tableau/Optimization/Rotations/Merge.antt =====
-- `remove_identities` and `merge_rotations` on a list of rotations keep the circuit.
use qsyn.Prelude.{ℕ, ◌≡◌, refl, true, List, [], ◌∷◌, Bool-cases, inl, inr, arith}
use qsyn.Prelude.Int.{pos}
use qsyn.Pauli.Equality.{equal_product}
use qsyn.Pauli.Product
use qsyn.Pauli.Product.{is_identity}
use qsyn.Pauli.Rotation.{PauliRotation, is_commutative}
use qsyn.Tableau.Equivalence.{Equal, item_of, items_of}
use qsyn.Tableau.Equivalence.Laws.{cons, suffix}
use qsyn.Tableau.Optimization.Identities.{remove_identities, is_trivial}
use qsyn.Tableau.Optimization.Rotations.{merge_with, set_phase}
use qsyn.Util.Phase
use qsyn.Util.Phase.{phase_of}
use qsyn.Util.Phase.Equality.{phase_eq}

module _ (n : ℕ) where
  trivial : (r : PauliRotation) → is_trivial r ≡ true → Equal n (item_of r ∷ []) []
  unfolding is_trivial
  trivial r e = elim (Bool-cases (Phase.equal r.phase (phase_of (pos 0)))) [
    | inl h ↦ rw (phase_eq r.phase (phase_of (pos 0)) h) (Equal.no_angle r.product)
    | inr h ↦ Equal.no_letters r.product r.phase (ground (arith, e, h))
  ]

  -- Removing the trivial rotations of a list keeps the circuit.
  pub remove_identities-Equal :
      (rs : List PauliRotation) → Equal n (items_of rs) (items_of (remove_identities rs))
  unfolding remove_identities
  remove_identities-Equal [] = Equal.same []
  remove_identities-Equal (r ∷ rs) = elim (Bool-cases (is_trivial r)) [
    | inl h ↦ rw h (Equal.via (suffix n (items_of rs) (trivial r h)) (remove_identities-Equal rs))
    | inr h ↦ rw h (cons n (item_of r) (remove_identities-Equal rs))
  ]

  pub product-merge_with :
      (r : PauliRotation) (us : List PauliRotation) → (merge_with r us).0.product ≡ r.product
  unfolding merge_with
  product-merge_with r [] = refl
  product-merge_with r (u ∷ us) =
      let a = product-merge_with (set_phase r (Phase.add r.phase u.phase)) us in
      let b = product-merge_with r us in
      elim (Bool-cases (is_commutative r u)) [
        | inl h ↦ elim (Bool-cases (equal_product r.product u.product)) [
          | inl k ↦ rw (h, k) a
          | inr k ↦ rw (h, k) b
        ]
        | inr h ↦ rw h refl
      ]
