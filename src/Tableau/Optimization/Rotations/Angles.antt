-- ===== src/Tableau/Optimization/Rotations/Angles.antt =====
-- `absorb_angle`: a rotation by a Clifford angle becomes part of the Clifford in front.
use qsyn.Prelude.{
  ℕ, ◌≡◌, ◌∙◌, refl, sym, ap, subst, Bool, true, false, List, [], ◌∷◌, ◌++◌, Bool-cases, inl, inr,
  if◌then◌else◌, arith,
}
use mathlib.Core.List.{append_assoc, append-nil}
use qsyn.Pauli.Adjoint.{AllValid, IsValid, AreQubits}
use qsyn.Pauli.Commute.{AllValid→AllDistinct}
use qsyn.Pauli.Operator.{CliffordOperatorType, CliffordOperator, CliffordOperatorString, adjoint}
use qsyn.Pauli.Product.{n_qubits, is_identity}
use qsyn.Pauli.Rotation.{PauliRotation, extract_clifford_operators}
use qsyn.Pauli.Rotation.Extraction.Cx.{z_on}
use qsyn.Pauli.Rotation.Validity.{extract-AllValid}
use qsyn.Pauli.Strings.{adjoint-AllValid, append-AllValid, apply-append}
use qsyn.Pauli.Trait.{PauliProductTrait, apply, apply_operator, sdg, z}
use qsyn.Tableau.Equivalence.{Item, rotate, Equal, Same, items_of, gates, items}
use qsyn.Tableau.Equivalence.Gates.{AllWidth, rotation_gates, apply-items}
use qsyn.Tableau.Equivalence.Laws.{prefix, suffix, equal_of, Same-suffix}
use qsyn.Tableau.Optimization.Rotations
use qsyn.Tableau.Optimization.Rotations.{
  ConjugationView, conjugation_view, absorb_angle, absorb_from, absorb_clifford_rotations, half,
  minus_half, one, is_clifford_angle, set_phase,
}
use qsyn.Util.Phase
use qsyn.Util.Phase.{Phase, phase_of}
use qsyn.Util.Phase.Equality.{phase_eq}
use qsyn.Tableau.Optimization.Rotations.View.{Views, view-apply}

-- The gate of a Clifford angle, and the string that `absorb_angle` applies to the view.
angle_gate : Phase → ℕ → CliffordOperator
angle_gate θ q = record {
  type =
      if Phase.equal θ half
      then CliffordOperatorType.s
      else if Phase.equal θ minus_half
      then CliffordOperatorType.sdg
      else CliffordOperatorType.z;
  qubit₀ = q;
  qubit₁ = 0;
}

pub angle_string : Phase → PauliRotation → CliffordOperatorString
angle_string θ r = let e = extract_clifford_operators r in e.0 ++ angle_gate θ e.1 ∷ adjoint e.0

angle_gate-Equal :
    (n : ℕ) (θ : Phase) (q : ℕ)
    → is_clifford_angle θ ≡ true
    → Equal n (rotate (z_on n q) θ ∷ []) (gates (angle_gate θ q ∷ []))
unfolding angle_gate is_clifford_angle apply apply_operator
angle_gate-Equal n θ q h = elim (Bool-cases (Phase.equal θ half)) [
  | inl e ↦ rw (e, phase_eq θ half e) (Equal.z_half q)
  | inr e ↦ elim (Bool-cases (Phase.equal θ minus_half)) [
    | inl d ↦ rw (e, d, phase_eq θ minus_half d) (Equal.z_minus_half q)
    | inr d ↦ rw (e, d, phase_eq θ one (ground (arith, h, e, d))) (Equal.z_one q)
  ]
]

angle_gate-apply :
    (θ : Phase) (q : ℕ) (v : ConjugationView)
    → (if Phase.equal θ half
        then Rotations.s v q
        else if Phase.equal θ minus_half
        then sdg v q
        else z v q)
      ≡ apply_operator v (angle_gate θ q)
unfolding angle_gate apply_operator
angle_gate-apply θ q v = elim (Bool-cases (Phase.equal θ half)) [
  | inl e ↦ rw e refl
  | inr e ↦ elim (Bool-cases (Phase.equal θ minus_half)) [
    | inl d ↦ rw (e, d) refl
    | inr d ↦ rw (e, d) refl
  ]
]

apply-cons {ℓ} :
    {T : Type ℓ} ⦃t : PauliProductTrait T⦄ (p : T) (op : CliffordOperator)
    (ops : CliffordOperatorString)
    → apply p (op ∷ ops) ≡ apply (apply_operator p op) ops
unfolding apply
apply-cons p op ops = refl

apply-nil {ℓ} : {T : Type ℓ} ⦃t : PauliProductTrait T⦄ (p : T) → apply p [] ≡ p
unfolding apply
apply-nil p = refl

pub absorb_angle-apply :
    (θ : Phase) (r : PauliRotation) (v : ConjugationView)
    → absorb_angle θ r v ≡ apply v (angle_string θ r)
unfolding absorb_angle angle_string
absorb_angle-apply θ r v =
    ap (λ u. apply u (adjoint e.0)) (angle_gate-apply θ e.1 (apply v e.0))
    ∙ sym (apply-cons (apply v e.0) (angle_gate θ e.1) (adjoint e.0))
    ∙ sym (apply-append v e.0 (angle_gate θ e.1 ∷ adjoint e.0))
  where
    e : CliffordOperatorString × ℕ
    e = extract_clifford_operators r

angle_gate-IsValid : (n : ℕ) (θ : Phase) (q : ℕ) → IsValid n (angle_gate θ q)
unfolding angle_gate
angle_gate-IsValid n θ q = go (Phase.equal θ half) (Phase.equal θ minus_half)
  where
    go :
        (b d : Bool)
        → let ty =
            if b
            then CliffordOperatorType.s
            else if d
            then CliffordOperatorType.sdg
            else CliffordOperatorType.z in
          AreQubits ty n q 0
    go true d = tt
    go false true = tt
    go false false = tt

module _ (n : ℕ) (θ : Phase) (r : PauliRotation) (w : n_qubits r.product ≡ n) where
  there-AllValid : AllValid n (extract_clifford_operators r).0
  there-AllValid = subst (λ m. AllValid m (extract_clifford_operators r).0) w (extract-AllValid r)

  back-AllValid : AllValid n (adjoint (extract_clifford_operators r).0)
  back-AllValid = adjoint-AllValid n (extract_clifford_operators r).0 there-AllValid

  pub angle_string-AllValid : AllValid n (angle_string θ r)
  unfolding angle_string
  angle_string-AllValid =
      let e = extract_clifford_operators r in
      append-AllValid n e.0 (angle_gate θ e.1 ∷ adjoint e.0) there-AllValid
        (angle_gate-IsValid n θ e.1, back-AllValid)

  gates-angle_string :
      let e = extract_clifford_operators r in
      gates (angle_string θ r) ≡ (gates e.0 ++ gates (angle_gate θ e.1 ∷ [])) ++ gates (adjoint e.0)
  unfolding angle_string
  gates-angle_string =
      apply-append [] e.0 (g ∷ adjoint e.0)
      ∙ apply-cons (gates e.0) g (adjoint e.0)
      ∙ ap (λ xs. apply xs (adjoint e.0))
          (sym (apply-nil (apply_operator (gates e.0) g))
            ∙ sym (apply-cons (gates e.0) g [])
            ∙ apply-items (gates e.0) (g ∷ [])
                (AllValid→AllDistinct n (g ∷ []) (angle_gate-IsValid n θ e.1, tt)))
      ∙ apply-items (gates e.0 ++ gates (g ∷ [])) (adjoint e.0)
          (AllValid→AllDistinct n (adjoint e.0) back-AllValid)
    where
      e : CliffordOperatorString × ℕ
      e = extract_clifford_operators r

      g : CliffordOperator
      g = angle_gate θ e.1

  angle_string-Equal :
      r.product.neg ≡ false
      → is_identity r.product ≡ false
      → is_clifford_angle θ ≡ true
      → Equal n (rotate r.product θ ∷ []) (gates (angle_string θ r))
  unfolding extract_clifford_operators
  angle_string-Equal positive some h =
      Equal.via (rotation_gates n (set_phase r θ) w positive some) (
        Equal.via
          (suffix n (gates (adjoint (extract_clifford_operators r).0)) (
            prefix n (gates (extract_clifford_operators r).0)
              (angle_gate-Equal n θ (extract_clifford_operators r).1 h)))
          (equal_of n (sym gates-angle_string)))

  -- A rotation by a Clifford angle after the rotations of the view, absorbed by `absorb_angle`.
  pub absorb_angle-Same :
      (v : ConjugationView) (rest : List Item)
      → AllWidth n v.rotations
      → r.product.neg ≡ false
      → is_identity r.product ≡ false
      → is_clifford_angle θ ≡ true
      → AllWidth n (absorb_angle θ r v).rotations
        × Same n v.clifford
            (items_of v.rotations ++ rotate r.product θ ∷ rest)
            (absorb_angle θ r v).clifford
            (items_of (absorb_angle θ r v).rotations ++ rest)
  absorb_angle-Same v rest widths positive some h = rw (absorb_angle-apply θ r v) (
    views.0,
    Same.next
        (Same.on_items v.clifford (
          Equal.via
            (prefix n (items_of v.rotations) (suffix n rest (angle_string-Equal positive some h)))
            (equal_of n
              (sym (append_assoc (items_of v.rotations) (gates (angle_string θ r)) rest)))))
        (Same-suffix n rest views.1),
  )
    where
      views :
          Views n v.clifford
            (items_of v.rotations)
            (gates (angle_string θ r))
            (apply v (angle_string θ r))
            (gates (angle_string θ r))
      views =
          view-apply n v.clifford (items_of v.rotations) (angle_string θ r) [] v
            (AllValid→AllDistinct n (angle_string θ r) angle_string-AllValid)
            (widths, Same.on_items v.clifford (equal_of n (append-nil (items_of v.rotations))))
