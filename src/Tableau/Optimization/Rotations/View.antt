-- ===== src/Tableau/Optimization/Rotations/View.antt =====
-- `ConjugationView`: applying a string to the view is applying it to the circuit.
use qsyn.Prelude.{ℕ, ◌≡◌, sym, List, [], ◌∷◌, ◌++◌, map}
use mathlib.Core.List.{append_assoc}
use qsyn.Pauli.Gates.{n_qubits-h, n_qubits-s, n_qubits-cx}
use qsyn.Pauli.Generated.{AllDistinct, keep_apply}
use qsyn.Pauli.Operator.{CliffordOperatorString}
use qsyn.Pauli.Product
use qsyn.Pauli.Product.{PauliProduct, n_qubits, is_identity}
use qsyn.Pauli.Rotation
use qsyn.Pauli.Rotation.{PauliRotation, normalize, extract_clifford_operators}
use qsyn.Pauli.Trait.{apply}
use qsyn.Tableau.Equivalence.{Item, rotate, gate_h, gate_s, gate_cx, Equal, Same, items_of, items}
use qsyn.Tableau.Equivalence.Gates.{AllWidth, pass-all, width-all}
use qsyn.Tableau.Equivalence.Laws.{equal_of, Same-suffix}
use qsyn.Tableau.Optimization.Rotations
use qsyn.Tableau.Optimization.Rotations.{
  ConjugationView, conjugation_view, absorb_angle, absorb_from, absorb_clifford_rotations, half,
  minus_half, one, is_clifford_angle, set_phase,
}
use qsyn.Tableau.Stabilizer
use qsyn.Tableau.Stabilizer.{StabilizerTableau}
use qsyn.Util.Phase.{Phase}

module _ (n : ℕ) (c : StabilizerTableau) (xs : List Item) where
  -- The view stands for the circuit with the gates so far at its end.
  abbrev pub Views : List Item → ConjugationView → List Item → Type 0
  Views gs v us = AllWidth n v.rotations × Same n c (xs ++ gs) v.clifford (items_of v.rotations)

  -- A gate that passes every rotation of the view and is taken up by its Clifford.
  view-gate :
      (g : Item) (f : PauliProduct → PauliProduct)
      → ((p : PauliProduct) (a : Phase)
          → n_qubits p ≡ n
          → Equal n (rotate p a ∷ g ∷ []) (g ∷ rotate (f p) a ∷ []))
      → ((p : PauliProduct) → n_qubits (f p) ≡ n_qubits p)
      → (v : ConjugationView) (e : StabilizerTableau)
      → ((ys : List Item) → Same n v.clifford (g ∷ ys) e ys)
      → (gs us : List Item) → Views gs v us
      → Views
          (gs ++ g ∷ [])
          (record {
            clifford = e;
            rotations = map (λ r. normalize (record r { product = f r.product })) v.rotations;
          })
          (us ++ g ∷ [])
  view-gate g f pass keep v e take gs us h = (
    width-all n g f pass keep v.rotations h.0,
    Same.next (Same.on_items c (equal_of n (sym (append_assoc xs gs (g ∷ []))))) (
        Same.next (Same-suffix n (g ∷ []) h.1) (
          Same.next (Same.on_items v.clifford (pass-all n g f pass keep v.rotations h.0))
            (take _))),
  )

  -- Applying a string to the view is applying it to the circuit.
  pub view-apply :
      (ops : CliffordOperatorString) (gs : List Item) (v : ConjugationView)
      → AllDistinct ops
      → Views gs v gs
      → Views (apply gs ops) (apply v ops) (apply gs ops)
  unfolding Rotations.h Rotations.s Rotations.cx Rotation.h Rotation.s Rotation.cx
  view-apply ops gs v d h =
      keep_apply Views
        (λ gs v us q.
          view-gate (gate_h q) (λ p. Product.h p q) (λ p a. Equal.pass_h p a q)
            (λ p. n_qubits-h p q) v (Stabilizer.h v.clifford q) (Same.take_h v.clifford q) gs us)
        (λ gs v us q.
          view-gate (gate_s q) (λ p. Product.s p q) (λ p a. Equal.pass_s p a q)
            (λ p. n_qubits-s p q) v (Stabilizer.s v.clifford q) (Same.take_s v.clifford q) gs us)
        (λ gs v us i j ne.
          view-gate (gate_cx i j) (λ p. Product.cx p i j) (λ p a w. Equal.pass_cx p a i j w ne)
            (λ p. n_qubits-cx p i j) v (Stabilizer.cx v.clifford i j) (Same.take_cx v.clifford i j)
            gs us)
        ops gs v gs d h
