-- ===== src/Tableau/Equivalence/Gates.antt =====
-- Gates and rotations: a string of operators passes a list of rotations, and a rotation is a string of
-- gates around one about Z.
use qsyn.Prelude.{
  ℕ, ◌≡◌, ◌∙◌, refl, sym, ap, subst, false, List, [], ◌∷◌, ◌++◌, map, if_ind, Bool-cases, inl, inr,
}
use mathlib.Core.List.{append_assoc, append-nil}
use qsyn.Pauli.Adjoint.{AllValid}
use qsyn.Pauli.Commute.{AllValid→AllDistinct}
use qsyn.Pauli.Gates.{pauli_product, n_qubits-h, n_qubits-s, n_qubits-cx}
use qsyn.Pauli.Generated.{AllDistinct, keep_apply}
use qsyn.Pauli.Operator.{CliffordOperatorString, adjoint}
use qsyn.Pauli.Product
use qsyn.Pauli.Product.{PauliProduct, n_qubits, is_identity}
use qsyn.Pauli.Rotation.{PauliRotation, normalize, extract_clifford_operators}
use qsyn.Pauli.Rotation.Extraction.Cx.{z_on}
use qsyn.Pauli.Rotation.Extraction.{apply-extract_clifford_operators}
use qsyn.Pauli.Rotation.Validity.{extract-AllValid}
use qsyn.Pauli.Trait.{apply}
use qsyn.Pauli.Strings.{apply-append, adjoint-AllValid}
use qsyn.Tableau.Equivalence.{
  Item, rotate, gate_h, gate_s, gate_cx, items, Equal, item_of, items_of, gates,
}
use qsyn.Tableau.Equivalence.Laws.{cons, prefix, suffix, equal_of}
use qsyn.Util.Phase.{Phase}

-- The products of the rotations are over `n` qubits.
abbrev pub AllWidth : ℕ → List PauliRotation → Type 0
AllWidth n [] = Unit
AllWidth n (r ∷ rs) = (n_qubits r.product ≡ n) × AllWidth n rs

normalize-Equal :
    (n : ℕ) (r : PauliRotation) → Equal n (item_of r ∷ []) (item_of (normalize r) ∷ [])
unfolding normalize
normalize-Equal n r =
    if_ind (λ u. Equal n (item_of r ∷ []) (item_of u ∷ [])) r.product.neg
      (λ e. Equal.sign r.product r.phase) (λ e. Equal.same (item_of r ∷ []))

width-normalize : (r : PauliRotation) → n_qubits (normalize r).product ≡ n_qubits r.product
unfolding normalize
width-normalize r = elim (Bool-cases r.product.neg) [ inl e ↦ rw e refl | inr e ↦ rw e refl ]

-- A gate that passes each rotation passes the list.
module _ (n : ℕ) (g : Item) (f : PauliProduct → PauliProduct)
    (pass : (p : PauliProduct) (a : Phase)
      → n_qubits p ≡ n
      → Equal n (rotate p a ∷ g ∷ []) (g ∷ rotate (f p) a ∷ []))
    (keep : (p : PauliProduct) → n_qubits (f p) ≡ n_qubits p) where
  abbrev moved : PauliRotation → PauliRotation
  moved r = normalize (record r { product = f r.product })

  pub pass-all :
      (rs : List PauliRotation)
      → AllWidth n rs
      → Equal n (items_of rs ++ g ∷ []) (g ∷ items_of (map moved rs))
  pass-all [] w = Equal.same (g ∷ [])
  pass-all (r ∷ rs) w = Equal.via (cons n (item_of r) (pass-all rs w.1)) (
      suffix n (items_of (map moved rs)) (
        Equal.via (pass r.product r.phase w.0)
          (cons n g (normalize-Equal n (record r { product = f r.product })))))

  pub width-all : (rs : List PauliRotation) → AllWidth n rs → AllWidth n (map moved rs)
  width-all [] w = tt
  width-all (r ∷ rs) w = (
    width-normalize (record r { product = f r.product }) ∙ keep r.product ∙ w.0,
    width-all rs w.1,
  )

-- Applying a string to a list of items puts its gates at the end.
pub apply-items :
    (xs : List Item) (ops : CliffordOperatorString)
    → AllDistinct ops
    → apply xs ops ≡ xs ++ gates ops
apply-items xs ops d =
    keep_apply (λ (a b c : List Item). a ≡ xs ++ b)
      (λ a b c q e. ap (λ zs. zs ++ gate_h q ∷ []) e ∙ append_assoc xs b (gate_h q ∷ []))
      (λ a b c q e. ap (λ zs. zs ++ gate_s q ∷ []) e ∙ append_assoc xs b (gate_s q ∷ []))
      (λ a b c i j ne e. ap (λ zs. zs ++ gate_cx i j ∷ []) e ∙ append_assoc xs b (gate_cx i j ∷ []))
      ops xs [] [] d (sym (append-nil xs))

-- What holds while a string of operators passes the rotation: the gates so far, and the product.
Passes : ℕ → PauliProduct → Phase → List Item → PauliProduct → List Item → Type 0
Passes n p a gs q us = (n_qubits q ≡ n) × Equal n (rotate p a ∷ gs) (gs ++ rotate q a ∷ [])

pass-one :
    (n : ℕ) (p q r : PauliProduct) (a : Phase) (gs : List Item) (g : Item)
    → Equal n (rotate p a ∷ gs) (gs ++ rotate q a ∷ [])
    → Equal n (rotate q a ∷ g ∷ []) (g ∷ rotate r a ∷ [])
    → Equal n (rotate p a ∷ gs ++ g ∷ []) ((gs ++ g ∷ []) ++ rotate r a ∷ [])
pass-one n p q r a gs g e pass = Equal.via (suffix n (g ∷ []) e) (
    Equal.via (equal_of n (append_assoc gs (rotate q a ∷ []) (g ∷ []))) (
      Equal.via (prefix n gs pass) (equal_of n (sym (append_assoc gs (g ∷ []) (rotate r a ∷ []))))))

pub pass-gates :
    (n : ℕ) (p : PauliProduct) (a : Phase) (ops : CliffordOperatorString)
    → n_qubits p ≡ n
    → AllDistinct ops
    → Equal n (rotate p a ∷ gates ops) (gates ops ++ rotate (apply p ops) a ∷ [])
unfolding Passes
pass-gates n p a ops w d =
    (keep_apply (Passes n p a)
      (λ gs q us i h. (
        n_qubits-h q i ∙ h.0,
        pass-one n p q (Product.h q i) a gs (gate_h i) h.1 (Equal.pass_h q a i h.0),
      ))
      (λ gs q us i h. (
        n_qubits-s q i ∙ h.0,
        pass-one n p q (Product.s q i) a gs (gate_s i) h.1 (Equal.pass_s q a i h.0),
      ))
      (λ gs q us i j ne h. (
        n_qubits-cx q i j ∙ h.0,
        pass-one n p q (Product.cx q i j) a gs (gate_cx i j) h.1 (Equal.pass_cx q a i j h.0 ne),
      ))
      ops [] p [] d (w, Equal.same (rotate p a ∷ []))).1

-- A rotation is the gates of its operators, a rotation about Z, and the gates of the adjoint string.
pub rotation_gates :
    (n : ℕ) (r : PauliRotation)
    → n_qubits r.product ≡ n
    → r.product.neg ≡ false
    → is_identity r.product ≡ false
    → let e = extract_clifford_operators r in
      Equal n
        (item_of r ∷ [])
        ((gates e.0 ++ rotate (z_on n e.1) r.phase ∷ []) ++ gates (adjoint e.0))
rotation_gates n r w positive some =
    Equal.via (cons n (item_of r) (Equal.flip (Equal.undo ops valid))) (
      Equal.via
        (cons n (item_of r) (
          equal_of n
            (apply-append [] ops (adjoint ops) ∙ apply-items (gates ops) (adjoint ops) back)))
        (suffix n (gates (adjoint ops)) (
          Equal.via (pass-gates n r.product r.phase ops w there)
            (equal_of n (ap (λ p. gates ops ++ rotate p r.phase ∷ []) product)))))
  where
    ops : CliffordOperatorString
    ops = (extract_clifford_operators r).0

    valid : AllValid n ops
    valid = subst (λ m. AllValid m ops) w (extract-AllValid r)

    there : AllDistinct ops
    there = AllValid→AllDistinct n ops valid

    back : AllDistinct (adjoint ops)
    back = AllValid→AllDistinct n (adjoint ops) (adjoint-AllValid n ops valid)

    product : apply r.product ops ≡ z_on n (extract_clifford_operators r).1
    product =
        apply-extract_clifford_operators r positive some
        ∙ ap (λ m. z_on m (extract_clifford_operators r).1) w
