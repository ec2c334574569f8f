-- ===== src/Pauli/Strings.antt =====
-- Operator strings: application over a concatenation, and the adjoint string as the inverse.
use qsyn.Prelude.{ℕ, ◌≡◌, ◌∙◌, ap, sym, refl, subst, [], ◌∷◌, ◌++◌, reverse, map}
use mathlib.Core.List.{map-append, reverse-cons}
use qsyn.Pauli.Product.{PauliProduct, n_qubits}
use qsyn.Pauli.Trait.{PauliProductTrait, apply, apply_operator}
use qsyn.Pauli.Operator.{
  CliffordOperatorType, CliffordOperator, CliffordOperatorString, adjoint, adjoint_operator,
  adjoint_type,
}
use qsyn.Pauli.Gates.{pauli_product}
use qsyn.Pauli.Adjoint.{AllValid, IsValid, AreQubits, n_qubits-dispatch, dispatch-adjoint}

pub apply-append {ℓ} :
    {T : Type ℓ} ⦃t : PauliProductTrait T⦄ (p : T) (xs ys : CliffordOperatorString)
    → apply p (xs ++ ys) ≡ apply (apply p xs) ys
unfolding apply
apply-append p [] ys = refl
apply-append p (x ∷ xs) ys = apply-append (apply_operator p x) xs ys

pub adjoint-cons :
    (op : CliffordOperator) (ops : CliffordOperatorString)
    → adjoint (op ∷ ops) ≡ adjoint ops ++ adjoint_operator op ∷ []
unfolding adjoint
adjoint-cons op ops =
    ap (map adjoint_operator) (reverse-cons op ops)
    ∙ map-append adjoint_operator (reverse ops) (op ∷ [])

pub n_qubits-apply :
    (p : PauliProduct) (ops : CliffordOperatorString) → n_qubits (apply p ops) ≡ n_qubits p
unfolding apply
n_qubits-apply p [] = refl
n_qubits-apply p (op ∷ ops) =
    n_qubits-apply (apply_operator p op) ops
    ∙ unfold apply_operator in n_qubits-dispatch p op.type op.qubit₀ op.qubit₁

-- Applying a string of operators on qubits of the register, and then the string that `adjoint`
-- makes of it, gives the Pauli product back, its sign included.
pub apply-adjoint :
    (p : PauliProduct) (ops : CliffordOperatorString)
    → AllValid (n_qubits p) ops
    → apply (apply p ops) (adjoint ops) ≡ p
unfolding apply
apply-adjoint p [] v = unfold adjoint in refl
apply-adjoint p (op ∷ ops) v =
    ap (apply (apply (apply_operator p op) ops)) (adjoint-cons op ops)
    ∙ apply-append _ (adjoint ops) (adjoint_operator op ∷ [])
    ∙ ap (λ r. apply_operator r (adjoint_operator op))
        (apply-adjoint (apply_operator p op) ops (subst (λ n. AllValid n ops) (sym same) v.1))
    ∙ unfold apply_operator adjoint_operator in dispatch-adjoint p op.type op.qubit₀ op.qubit₁ v.0
  where
    same : n_qubits (apply_operator p op) ≡ n_qubits p
    same = unfold apply_operator in n_qubits-dispatch p op.type op.qubit₀ op.qubit₁

pub append-AllValid :
    (n : ℕ) (xs ys : CliffordOperatorString) → AllValid n xs → AllValid n ys → AllValid n (xs ++ ys)
append-AllValid n [] ys v w = w
append-AllValid n (x ∷ xs) ys v w = (v.0, append-AllValid n xs ys v.1 w)

adjoint-IsValid : (n : ℕ) (op : CliffordOperator) → IsValid n op → IsValid n (adjoint_operator op)
unfolding adjoint_operator
adjoint-IsValid n op v = go op.type op.qubit₀ op.qubit₁ v
  where
    go :
        (ty : CliffordOperatorType) (a b : ℕ)
        → AreQubits ty n a b
        → AreQubits (adjoint_type ty) n a b
    go CliffordOperatorType.cx a b v = v
    go CliffordOperatorType.cz a b v = v
    go CliffordOperatorType.swap a b v = v
    go CliffordOperatorType.ecr a b v = v
    go _ a b v = tt

pub adjoint-AllValid :
    (n : ℕ) (ops : CliffordOperatorString) → AllValid n ops → AllValid n (adjoint ops)
adjoint-AllValid n [] v = unfold adjoint in tt
adjoint-AllValid n (op ∷ ops) v = subst (AllValid n) (sym (adjoint-cons op ops)) (
    append-AllValid n (adjoint ops) (adjoint_operator op ∷ []) (adjoint-AllValid n ops v.1)
      (adjoint-IsValid n op v.0, tt))
