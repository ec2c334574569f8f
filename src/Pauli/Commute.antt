-- ===== src/Pauli/Commute.antt =====
-- Operator strings respect the product of Pauli products, and so what commutes.
use qsyn.Prelude.{ℕ, ◌≡◌, ◌∙◌, ap, sym, refl, Bool, true, false, ◌↔◌, subst, [], ◌∷◌}
use qsyn.Pauli.Product.{PauliProduct, n_qubits, ◌⊙◌, is_commutative}
use qsyn.Pauli.Operator.{CliffordOperatorType, CliffordOperatorString, adjoint}
use qsyn.Pauli.Trait.{apply}
use qsyn.Pauli.Gates.{pauli_product, n_qubits-h, n_qubits-s, n_qubits-cx}
use qsyn.Pauli.Conjugation.{h-⊙, s-⊙, n_qubits-⊙}
use qsyn.Pauli.Conjugation.Cx.{cx-⊙}
use qsyn.Pauli.Generated.{AllDistinct, AreDistinct, keep_apply}
use qsyn.Pauli.Adjoint.{AllValid, AreQubits}
use qsyn.Pauli.Strings.{apply-adjoint, n_qubits-apply}
use qsyn.Pauli.Matrix.Product.{is_commutative_iff}

-- r is the product of p and q, over the same qubits.
abbrev IsProductOf : PauliProduct → PauliProduct → PauliProduct → Type 0
IsProductOf p q r = (n_qubits p ≡ n_qubits q) × (r ≡ p ⊙ q)

-- For Pauli products over the same qubits, applying a string of operators, whose operators on two
-- qubits have different ones, to the product or to the factors is the same, signs included.
pub apply-⊙ :
    (p q : PauliProduct) (ops : CliffordOperatorString)
    → n_qubits p ≡ n_qubits q
    → AllDistinct ops
    → apply (p ⊙ q) ops ≡ apply p ops ⊙ apply q ops
apply-⊙ p q ops same d =
    (keep_apply IsProductOf
      (λ a b c i r. (
        n_qubits-h a i ∙ r.0 ∙ sym (n_qubits-h b i),
        ap (λ e. pauli_product.h e i) r.1 ∙ h-⊙ a b i r.0,
      ))
      (λ a b c i r. (
        n_qubits-s a i ∙ r.0 ∙ sym (n_qubits-s b i),
        ap (λ e. pauli_product.s e i) r.1 ∙ s-⊙ a b i r.0,
      ))
      (λ a b c i j i_j r. (
        n_qubits-cx a i j ∙ r.0 ∙ sym (n_qubits-cx b i j),
        ap (λ e. pauli_product.cx e i j) r.1 ∙ cx-⊙ a b i j r.0 i_j,
      ))
      ops p q (p ⊙ q) d (same, refl)).1

pub AreQubits→AreDistinct :
    (ty : CliffordOperatorType) (n a b : ℕ) → AreQubits ty n a b → AreDistinct ty a b
AreQubits→AreDistinct CliffordOperatorType.cx n a b v = v.2
AreQubits→AreDistinct CliffordOperatorType.cz n a b v = v.2
AreQubits→AreDistinct CliffordOperatorType.swap n a b v = v.2
AreQubits→AreDistinct CliffordOperatorType.ecr n a b v = v.2
AreQubits→AreDistinct _ n a b v = tt

pub AllValid→AllDistinct : (n : ℕ) (ops : CliffordOperatorString) → AllValid n ops → AllDistinct ops
AllValid→AllDistinct n [] v = tt
AllValid→AllDistinct n (op ∷ ops) v =
    (AreQubits→AreDistinct op.type n op.qubit₀ op.qubit₁ v.0, AllValid→AllDistinct n ops v.1)

Bool_ext : (a b : Bool) → ((a ≡ true) ↔ (b ≡ true)) → a ≡ b
Bool_ext true true e = refl
Bool_ext true false e = sym (e.0 refl)
Bool_ext false true e = e.1 refl
Bool_ext false false e = refl

-- Applying a string of operators on qubits of the register to two Pauli products over it changes
-- nothing about whether they commute.
pub is_commutative-apply :
    (p q : PauliProduct) (ops : CliffordOperatorString)
    → n_qubits p ≡ n_qubits q
    → AllValid (n_qubits p) ops
    → is_commutative (apply p ops) (apply q ops) ≡ is_commutative p q
is_commutative-apply p q ops same v = Bool_ext _ _ (
  λ h. (is_commutative_iff p q same).1 (
      injective (
        apply-⊙ p q ops same d
        ∙ (is_commutative_iff (apply p ops) (apply q ops) kept).0 h
        ∙ sym (apply-⊙ q p ops (sym same) d))),
  λ h. (is_commutative_iff (apply p ops) (apply q ops) kept).1 (
      sym (apply-⊙ p q ops same d)
      ∙ ap (λ r. apply r ops) ((is_commutative_iff p q same).0 h)
      ∙ apply-⊙ q p ops (sym same) d),
)
  where
    d : AllDistinct ops
    d = AllValid→AllDistinct (n_qubits p) ops v

    kept : n_qubits (apply p ops) ≡ n_qubits (apply q ops)
    kept = n_qubits-apply p ops ∙ same ∙ sym (n_qubits-apply q ops)

    valid_at : (r : PauliProduct) → n_qubits r ≡ n_qubits p → AllValid (n_qubits r) ops
    valid_at r e = subst (λ n. AllValid n ops) (sym e) v

    injective : apply (p ⊙ q) ops ≡ apply (q ⊙ p) ops → p ⊙ q ≡ q ⊙ p
    injective e =
        sym (apply-adjoint (p ⊙ q) ops (valid_at (p ⊙ q) (n_qubits-⊙ p q same)))
        ∙ ap (λ r. apply r (adjoint ops)) e
        ∙ apply-adjoint (q ⊙ p) ops (valid_at (q ⊙ p) (n_qubits-⊙ q p (sym same) ∙ sym same))
