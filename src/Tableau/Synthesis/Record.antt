-- ===== src/Tableau/Synthesis/Record.antt =====
-- The recorded gates lead from the tableau at the start to the copy: an invariant of every step of
-- both strategies.
pub mod Aaronson
pub mod Diagonal
use qsyn.Prelude.{ℕ, ◌<◌, ◌≡◌, ◌≢◌, ◌∙◌, ap, refl, Bool, true, false, if◌then◌else◌, [], ◌∷◌, ◌++◌}
use qsyn.Pauli.Operator.{CliffordOperatorType, CliffordOperator, CliffordOperatorString}
use qsyn.Pauli.Trait.{apply, apply_operator}
use qsyn.Pauli.Adjoint.{AllValid, IsValid}
use qsyn.Pauli.Strings.{apply-append, append-AllValid}
use qsyn.Pauli.Commute.{AllValid→AllDistinct}
use qsyn.Tableau.Stabilizer.{StabilizerTableau, n_qubits, stabilizer_tableau}
use qsyn.Tableau.Stabilizer.Rows.{IsWellFormed, apply-IsWellFormed, n_qubits-eq}
use qsyn.Tableau.Synthesis.{Building, pushed, add_cx, add_h, add_s, add_x, add_z}

pub record IsRecord (n : ℕ) (t : StabilizerTableau) (b : Building) : Type 0 where
  pub leads : apply t b.clifford_ops ≡ b.copy
  pub valid : AllValid n b.clifford_ops
  pub well_formed : IsWellFormed n b.copy

module _ (n : ℕ) (t : StabilizerTableau) where
  push-IsRecord :
      (b : Building) (op : CliffordOperator)
      → IsValid n op
      → IsRecord n t b
      → IsRecord n t (pushed b (apply_operator b.copy op) op)
  push-IsRecord b op v r = record {
    leads =
        apply-append t b.clifford_ops (op ∷ [])
        ∙ ap (λ u. apply u (op ∷ [])) r.leads
        ∙ (unfold apply in refl);
    valid = append-AllValid n b.clifford_ops (op ∷ []) r.valid (v, tt);
    well_formed =
        unfold apply in
        apply-IsWellFormed n b.copy (op ∷ []) r.well_formed
          (AllValid→AllDistinct n (op ∷ []) (v, tt));
  }

  pub add_cx-IsRecord :
      (ctrl targ : ℕ) (b : Building)
      → ctrl < n
      → targ < n
      → ctrl ≢ targ
      → IsRecord n t b
      → IsRecord n t (add_cx ctrl targ b)
  unfolding add_cx apply_operator
  add_cx-IsRecord ctrl targ b c_in t_in ne r =
      push-IsRecord b (record { type = CliffordOperatorType.cx; qubit₀ = ctrl; qubit₁ = targ })
        (c_in, t_in, ne) r

  pub add_h-IsRecord : (q : ℕ) (b : Building) → IsRecord n t b → IsRecord n t (add_h q b)
  unfolding add_h apply_operator
  add_h-IsRecord q b r =
      push-IsRecord b (record { type = CliffordOperatorType.h; qubit₀ = q; qubit₁ = 0 }) tt r

  pub add_s-IsRecord : (q : ℕ) (b : Building) → IsRecord n t b → IsRecord n t (add_s q b)
  unfolding add_s apply_operator
  add_s-IsRecord q b r =
      push-IsRecord b (record { type = CliffordOperatorType.s; qubit₀ = q; qubit₁ = 0 }) tt r

  pub add_x-IsRecord : (q : ℕ) (b : Building) → IsRecord n t b → IsRecord n t (add_x q b)
  unfolding add_x apply_operator
  add_x-IsRecord q b r =
      push-IsRecord b (record { type = CliffordOperatorType.x; qubit₀ = q; qubit₁ = 0 }) tt r

  pub add_z-IsRecord : (q : ℕ) (b : Building) → IsRecord n t b → IsRecord n t (add_z q b)
  unfolding add_z apply_operator
  add_z-IsRecord q b r =
      push-IsRecord b (record { type = CliffordOperatorType.z; qubit₀ = q; qubit₁ = 0 }) tt r

  -- A step under a test.
  pub if-IsRecord :
      (test : Bool) (b c : Building)
      → IsRecord n t b
      → IsRecord n t c
      → IsRecord n t (if test then b else c)
  if-IsRecord true b c r s = r
  if-IsRecord false b c r s = s

  pub qubits-eq : (b : Building) → IsRecord n t b → n_qubits b.copy ≡ n
  qubits-eq b r = n_qubits-eq b.copy r.well_formed
