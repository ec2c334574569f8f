-- ===== src/Pauli/Trait.antt =====
-- src/tableau/pauli_rotation.hpp, `PauliProductTrait`: the operators that h, s and cx generate.
use qsyn.Prelude.{ℕ, [], ◌∷◌}
use qsyn.Pauli.Operator.{CliffordOperatorType, CliffordOperator, CliffordOperatorString}

-- The three virtual functions of the trait.
pub record PauliProductTrait {ℓ} (T : Type ℓ) : Type ℓ where
  pub h : T → ℕ → T
  pub s : T → ℕ → T
  pub cx : T → ℕ → ℕ → T

module _ {ℓ} {T : Type ℓ} ⦃t : PauliProductTrait T⦄ where
  abbrev pub sdg : T → ℕ → T
  sdg p q = t.s (t.s (t.s p q) q) q

  abbrev pub v : T → ℕ → T
  v p q = t.h (t.s (t.h p q) q) q

  abbrev pub vdg : T → ℕ → T
  vdg p q = t.h (sdg (t.h p q) q) q

  abbrev pub z : T → ℕ → T
  z p q = t.s (t.s p q) q

  abbrev pub x : T → ℕ → T
  x p q = t.h (z (t.h p q) q) q

  abbrev pub y : T → ℕ → T
  y p q = z (x p q) q

  abbrev pub cz : T → ℕ → ℕ → T
  cz p c d = t.h (t.cx (t.h p d) c d) d

  abbrev pub swap : T → ℕ → ℕ → T
  swap p a b = t.cx (t.cx (t.cx p a b) b a) a b

  abbrev pub ecr : T → ℕ → ℕ → T
  ecr p c d = v (x (t.s (t.cx p c d) c) c) d

  abbrev pub dispatch : CliffordOperatorType → T → ℕ → ℕ → T
  dispatch CliffordOperatorType.h p a b = t.h p a
  dispatch CliffordOperatorType.s p a b = t.s p a
  dispatch CliffordOperatorType.cx p a b = t.cx p a b
  dispatch CliffordOperatorType.sdg p a b = sdg p a
  dispatch CliffordOperatorType.v p a b = v p a
  dispatch CliffordOperatorType.vdg p a b = vdg p a
  dispatch CliffordOperatorType.x p a b = x p a
  dispatch CliffordOperatorType.y p a b = y p a
  dispatch CliffordOperatorType.z p a b = z p a
  dispatch CliffordOperatorType.cz p a b = cz p a b
  dispatch CliffordOperatorType.swap p a b = swap p a b
  dispatch CliffordOperatorType.ecr p a b = ecr p a b

  -- `apply`, of one operator and of a string of them.
  unfoldable pub apply_operator : T → CliffordOperator → T
  apply_operator p op = dispatch op.type p op.qubit₀ op.qubit₁

  unfoldable pub apply : T → CliffordOperatorString → T
  unfolding apply_operator
  apply p [] = p
  apply p (op ∷ ops) = apply (apply_operator p op) ops
