-- ===== src/Pauli/Adjoint.antt =====
-- Conjugation by an operator and then by its adjoint is the identity on Pauli products.
use qsyn.Prelude.{ℕ, suc, ◌<◌, ◌≤◌, ◌≡◌, ◌∙◌, ap, sym, arith, ◌≢◌, ◌⊎◌, lt_cases, inl, inr, [], ◌∷◌}
use qsyn.Pauli.Product
use qsyn.Pauli.Product.{PauliProduct, n_qubits}
use qsyn.Pauli.Trait.{dispatch}
use qsyn.Pauli.Operator.{
  CliffordOperatorType, CliffordOperator, CliffordOperatorString, adjoint_type,
}
use qsyn.Pauli.Gates.{pauli_product, h_outside, s_outside, n_qubits-h, n_qubits-s, n_qubits-cx}
use qsyn.Pauli.Local.{
  Two, two, embed, extract, embed-extract, h-embed₀, h-embed₁, s-embed₀, s-embed₁, cx-embed₀,
  cx-embed₁,
}

-- What a circuit guarantees of an operator: two distinct qubits of the register, where it takes two.
abbrev pub AreQubits : CliffordOperatorType → ℕ → ℕ → ℕ → Type 0
AreQubits CliffordOperatorType.cx n a b = (a < n) × (b < n) × (a ≢ b)
AreQubits CliffordOperatorType.cz n a b = (a < n) × (b < n) × (a ≢ b)
AreQubits CliffordOperatorType.swap n a b = (a < n) × (b < n) × (a ≢ b)
AreQubits CliffordOperatorType.ecr n a b = (a < n) × (b < n) × (a ≢ b)
AreQubits _ n a b = Unit

abbrev pub IsValid : ℕ → CliffordOperator → Type 0
IsValid n op = AreQubits op.type n op.qubit₀ op.qubit₁

abbrev pub AllValid : ℕ → CliffordOperatorString → Type 0
AllValid n [] = Unit
AllValid n (op ∷ ops) = IsValid n op × AllValid n ops

abbrev pub IsSingle : CliffordOperatorType → Type 0
IsSingle CliffordOperatorType.cx = ⊥
IsSingle CliffordOperatorType.cz = ⊥
IsSingle CliffordOperatorType.swap = ⊥
IsSingle CliffordOperatorType.ecr = ⊥
IsSingle _ = Unit

module _ (p : PauliProduct) (c t : ℕ) (c_t : c ≢ t) (c_in : c < n_qubits p) where
  abbrev h₀ : (w : Two) → Product.h (embed p c t w) c ≡ embed p c t (two.h w 0)
  h₀ = h-embed₀ p c t c_t c_in

  abbrev s₀ : (w : Two) → Product.s (embed p c t w) c ≡ embed p c t (two.s w 0)
  s₀ = s-embed₀ p c t c_t c_in

  pub dispatch-embed_single :
      (ty : CliffordOperatorType) (b : ℕ) (w : Two)
      → IsSingle ty
      → dispatch ty (embed p c t w) c b ≡ embed p c t (dispatch ty w 0 1)
  dispatch-embed_single CliffordOperatorType.h b w k = h₀ w
  dispatch-embed_single CliffordOperatorType.s b w k = s₀ w
  dispatch-embed_single CliffordOperatorType.sdg b w k = simp s₀
  dispatch-embed_single CliffordOperatorType.v b w k = simp (h₀, s₀)
  dispatch-embed_single CliffordOperatorType.vdg b w k = simp (h₀, s₀)
  dispatch-embed_single CliffordOperatorType.x b w k = simp (h₀, s₀)
  dispatch-embed_single CliffordOperatorType.y b w k = simp (h₀, s₀)
  dispatch-embed_single CliffordOperatorType.z b w k = simp s₀
  dispatch-embed_single _ b w k = absurd k

  pub dispatch-embed :
      (ty : CliffordOperatorType) (w : Two)
      → t < n_qubits p
      → dispatch ty (embed p c t w) c t ≡ embed p c t (dispatch ty w 0 1)
  dispatch-embed CliffordOperatorType.cx w t_in = cx-embed₀ p c t c_t c_in t_in w
  dispatch-embed CliffordOperatorType.cz w t_in =
      simp (h-embed₁ p c t c_t c_in t_in, cx-embed₀ p c t c_t c_in t_in)
  dispatch-embed CliffordOperatorType.swap w t_in =
      simp (cx-embed₀ p c t c_t c_in t_in, cx-embed₁ p c t c_t c_in t_in)
  dispatch-embed CliffordOperatorType.ecr w t_in = simp (
    h₀,
    s₀,
    h-embed₁ p c t c_t c_in t_in,
    s-embed₁ p c t c_t c_in t_in,
    cx-embed₀ p c t c_t c_in t_in,
  )
  dispatch-embed CliffordOperatorType.h w t_in = dispatch-embed_single CliffordOperatorType.h t w tt
  dispatch-embed CliffordOperatorType.s w t_in = dispatch-embed_single CliffordOperatorType.s t w tt
  dispatch-embed CliffordOperatorType.sdg w t_in =
      dispatch-embed_single CliffordOperatorType.sdg t w tt
  dispatch-embed CliffordOperatorType.v w t_in = dispatch-embed_single CliffordOperatorType.v t w tt
  dispatch-embed CliffordOperatorType.vdg w t_in =
      dispatch-embed_single CliffordOperatorType.vdg t w tt
  dispatch-embed CliffordOperatorType.x w t_in = dispatch-embed_single CliffordOperatorType.x t w tt
  dispatch-embed CliffordOperatorType.y w t_in = dispatch-embed_single CliffordOperatorType.y t w tt
  dispatch-embed CliffordOperatorType.z w t_in = dispatch-embed_single CliffordOperatorType.z t w tt

-- On two sites: every operator followed by its adjoint.
dispatch-adjoint_two :
    (ty : CliffordOperatorType) (w : Two) → dispatch (adjoint_type ty) (dispatch ty w 0 1) 0 1 ≡ w
unfolding adjoint_type
dispatch-adjoint_two CliffordOperatorType.h w = ground arith
dispatch-adjoint_two CliffordOperatorType.s w = ground arith
dispatch-adjoint_two CliffordOperatorType.cx w = ground arith
dispatch-adjoint_two CliffordOperatorType.sdg w = ground arith
dispatch-adjoint_two CliffordOperatorType.v w = ground arith
dispatch-adjoint_two CliffordOperatorType.vdg w = ground arith
dispatch-adjoint_two CliffordOperatorType.x w = ground arith
dispatch-adjoint_two CliffordOperatorType.y w = ground arith
dispatch-adjoint_two CliffordOperatorType.z w = ground arith
dispatch-adjoint_two CliffordOperatorType.cz w = ground arith
dispatch-adjoint_two CliffordOperatorType.swap w = ground arith
dispatch-adjoint_two CliffordOperatorType.ecr w = ground arith

-- Past the last qubit an operator on one qubit does nothing.
dispatch_outside :
    (p : PauliProduct) (ty : CliffordOperatorType) (a b : ℕ)
    → IsSingle ty
    → n_qubits p ≤ a
    → dispatch ty p a b ≡ p
dispatch_outside p CliffordOperatorType.h a b k out = simp (h_outside p a out)
dispatch_outside p CliffordOperatorType.s a b k out = simp (s_outside p a out)
dispatch_outside p CliffordOperatorType.sdg a b k out = simp (s_outside p a out)
dispatch_outside p CliffordOperatorType.v a b k out = simp (h_outside p a out, s_outside p a out)
dispatch_outside p CliffordOperatorType.vdg a b k out = simp (h_outside p a out, s_outside p a out)
dispatch_outside p CliffordOperatorType.x a b k out = simp (h_outside p a out, s_outside p a out)
dispatch_outside p CliffordOperatorType.y a b k out = simp (h_outside p a out, s_outside p a out)
dispatch_outside p CliffordOperatorType.z a b k out = simp (s_outside p a out)
dispatch_outside p _ a b k out = absurd k

IsSingle-adjoint : (ty : CliffordOperatorType) → IsSingle ty → IsSingle (adjoint_type ty)
unfolding adjoint_type
IsSingle-adjoint CliffordOperatorType.cx k = k
IsSingle-adjoint CliffordOperatorType.cz k = k
IsSingle-adjoint CliffordOperatorType.swap k = k
IsSingle-adjoint CliffordOperatorType.ecr k = k
IsSingle-adjoint _ k = tt

-- Either the operator takes one qubit, or it is given two of the register.
pub AreQubits-cases :
    (ty : CliffordOperatorType) (n a b : ℕ)
    → AreQubits ty n a b
    → IsSingle ty ⊎ ((a < n) × (b < n) × (a ≢ b))
AreQubits-cases CliffordOperatorType.cx n a b v = inr v
AreQubits-cases CliffordOperatorType.cz n a b v = inr v
AreQubits-cases CliffordOperatorType.swap n a b v = inr v
AreQubits-cases CliffordOperatorType.ecr n a b v = inr v
AreQubits-cases _ n a b v = inl tt

module _ (p : PauliProduct) (ty : CliffordOperatorType) (a b : ℕ) where
  pub dispatch-place :
      a ≢ b
      → a < n_qubits p
      → b < n_qubits p
      → dispatch ty p a b ≡ embed p a b (dispatch ty (extract p a b) 0 1)
  dispatch-place a_b a_in b_in =
      ap (λ r. dispatch ty r a b) (sym (embed-extract p a b))
      ∙ dispatch-embed p a b a_b a_in ty (extract p a b) b_in

  pub dispatch-place_single :
      IsSingle ty
      → a < n_qubits p
      → dispatch ty p a b ≡ embed p a (suc a) (dispatch ty (extract p a (suc a)) 0 1)
  dispatch-place_single k a_in =
      ap (λ r. dispatch ty r a b) (sym (embed-extract p a (suc a)))
      ∙ dispatch-embed_single p a (suc a) (omega arith) a_in ty b (extract p a (suc a)) k

  dispatch-adjoint_both :
      a ≢ b
      → a < n_qubits p
      → b < n_qubits p
      → dispatch (adjoint_type ty) (dispatch ty p a b) a b ≡ p
  dispatch-adjoint_both a_b a_in b_in =
      ap (λ r. dispatch (adjoint_type ty) r a b) (dispatch-place a_b a_in b_in)
      ∙ dispatch-embed p a b a_b a_in (adjoint_type ty) (dispatch ty (extract p a b) 0 1) b_in
      ∙ ap (embed p a b) (dispatch-adjoint_two ty (extract p a b))
      ∙ embed-extract p a b

  dispatch-adjoint_single : IsSingle ty → dispatch (adjoint_type ty) (dispatch ty p a b) a b ≡ p
  dispatch-adjoint_single k = elim (lt_cases a (n_qubits p)) [
    | inl a_in ↦
        ap (λ r. dispatch (adjoint_type ty) r a b) (dispatch-place_single k a_in)
        ∙ dispatch-embed_single p a (suc a) (omega arith) a_in (adjoint_type ty) b
            (dispatch ty (extract p a (suc a)) 0 1) (IsSingle-adjoint ty k)
        ∙ ap (embed p a (suc a)) (dispatch-adjoint_two ty (extract p a (suc a)))
        ∙ embed-extract p a (suc a)
    | inr out ↦
        ap (λ r. dispatch (adjoint_type ty) r a b) (dispatch_outside p ty a b k out)
        ∙ dispatch_outside p (adjoint_type ty) a b (IsSingle-adjoint ty k) out
  ]

  pub dispatch-adjoint :
      AreQubits ty (n_qubits p) a b → dispatch (adjoint_type ty) (dispatch ty p a b) a b ≡ p
  dispatch-adjoint v = elim (AreQubits-cases ty (n_qubits p) a b v) [
    | inl k ↦ dispatch-adjoint_single k
    | inr (a_in, b_in, a_b) ↦ dispatch-adjoint_both a_b a_in b_in
  ]

ruleset sizes = (n_qubits-h, n_qubits-s, n_qubits-cx)

pub n_qubits-dispatch :
    (p : PauliProduct) (ty : CliffordOperatorType) (a b : ℕ)
    → n_qubits (dispatch ty p a b) ≡ n_qubits p
n_qubits-dispatch p CliffordOperatorType.h a b = simp sizes
n_qubits-dispatch p CliffordOperatorType.s a b = simp sizes
n_qubits-dispatch p CliffordOperatorType.cx a b = simp sizes
n_qubits-dispatch p CliffordOperatorType.sdg a b = simp sizes
n_qubits-dispatch p CliffordOperatorType.v a b = simp sizes
n_qubits-dispatch p CliffordOperatorType.vdg a b = simp sizes
n_qubits-dispatch p CliffordOperatorType.x a b = simp sizes
n_qubits-dispatch p CliffordOperatorType.y a b = simp sizes
n_qubits-dispatch p CliffordOperatorType.z a b = simp sizes
n_qubits-dispatch p CliffordOperatorType.cz a b = simp sizes
n_qubits-dispatch p CliffordOperatorType.swap a b = simp sizes
n_qubits-dispatch p CliffordOperatorType.ecr a b = simp sizes
