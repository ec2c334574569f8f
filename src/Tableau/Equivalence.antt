-- ===== src/Tableau/Equivalence.antt =====
-- A specification for the passes of src/tableau/tableau_optimization.cpp: when two circuits, a Clifford
-- followed by gates and Pauli rotations in the order of time, are the same up to a global phase.
pub mod Laws
pub mod Gates
use qsyn.Prelude.{ℕ, ◌≡◌, ◌≢◌, Bool, true, List, [], ◌∷◌, ◌++◌, map}
use qsyn.Prelude.Int.{pos, negsuc}
use qsyn.Pauli.Adjoint.{AllValid}
use qsyn.Pauli.Operator.{CliffordOperatorString, adjoint}
use qsyn.Pauli.Product
use qsyn.Pauli.Product.{PauliProduct, n_qubits, is_commutative, is_identity, negate}
use qsyn.Pauli.Rotation.{PauliRotation}
use qsyn.Pauli.Rotation.Extraction.Cx.{z_on}
use qsyn.Pauli.Trait.{PauliProductTrait, apply}
use qsyn.Tableau.Stabilizer
use qsyn.Tableau.Stabilizer.{StabilizerTableau}
use qsyn.Util.Phase
use qsyn.Util.Phase.{Phase, phase, phase_of, scale, minus_one}

pub data Item : Type 0 where
  rotate : PauliProduct → Phase → Item
  gate_h : ℕ → Item
  gate_s : ℕ → Item
  gate_cx : ℕ → ℕ → Item

-- To apply an operator to a list of items is to put its gates at the end.
instance abbrev pub items : PauliProductTrait (List Item)
items = record {
  h = λ xs q. xs ++ gate_h q ∷ [];
  s = λ xs q. xs ++ gate_s q ∷ [];
  cx = λ xs c t. xs ++ gate_cx c t ∷ [];
}

abbrev pub item_of : PauliRotation → Item
item_of r = rotate r.product r.phase

abbrev pub items_of : List PauliRotation → List Item
items_of = map item_of

abbrev pub gates : CliffordOperatorString → List Item
gates ops = apply [] ops

-- Rotations about one product add, commuting ones change places, and a gate passes a rotation by
-- conjugating its product. Rotations are taken modulo 2 pi, where they repeat up to a global phase.
pub data Equal (n : ℕ) : List Item → List Item → Type 0 where
  same : (xs : List Item) → Equal n xs xs
  flip : {xs ys : List Item} → Equal n xs ys → Equal n ys xs
  via : {xs ys zs : List Item} → Equal n xs ys → Equal n ys zs → Equal n xs zs
  inside :
      {xs ys : List Item} (us vs : List Item)
      → Equal n xs ys
      → Equal n (us ++ (xs ++ vs)) (us ++ (ys ++ vs))
  swap :
      (p q : PauliProduct) (a b : Phase)
      → is_commutative p q ≡ true
      → Equal n (rotate p a ∷ rotate q b ∷ []) (rotate q b ∷ rotate p a ∷ [])
  merge :
      (p : PauliProduct) (a b : Phase)
      → Equal n (rotate p a ∷ rotate p b ∷ []) (rotate p (Phase.add a b) ∷ [])
  no_angle : (p : PauliProduct) → Equal n (rotate p (phase_of (pos 0)) ∷ []) []
  no_letters : (p : PauliProduct) (a : Phase) → is_identity p ≡ true → Equal n (rotate p a ∷ []) []
  sign :
      (p : PauliProduct) (a : Phase)
      → Equal n (rotate p a ∷ []) (rotate (negate p) (scale a minus_one) ∷ [])
  pass_h :
      (p : PauliProduct) (a : Phase) (q : ℕ)
      → n_qubits p ≡ n
      → Equal n (rotate p a ∷ gate_h q ∷ []) (gate_h q ∷ rotate (Product.h p q) a ∷ [])
  pass_s :
      (p : PauliProduct) (a : Phase) (q : ℕ)
      → n_qubits p ≡ n
      → Equal n (rotate p a ∷ gate_s q ∷ []) (gate_s q ∷ rotate (Product.s p q) a ∷ [])
  pass_cx :
      (p : PauliProduct) (a : Phase) (c t : ℕ)
      → n_qubits p ≡ n
      → c ≢ t
      → Equal n (rotate p a ∷ gate_cx c t ∷ []) (gate_cx c t ∷ rotate (Product.cx p c t) a ∷ [])
  undo : (ops : CliffordOperatorString) → AllValid n ops → Equal n (gates (ops ++ adjoint ops)) []
  z_half : (q : ℕ) → Equal n (rotate (z_on n q) (phase (pos 1) (pos 2)) ∷ []) (gate_s q ∷ [])
  z_minus_half :
      (q : ℕ)
      → Equal n
          (rotate (z_on n q) (phase (negsuc 0) (pos 2)) ∷ [])
          (gate_s q ∷ gate_s q ∷ gate_s q ∷ [])
  z_one : (q : ℕ) → Equal n (rotate (z_on n q) (phase_of (pos 1)) ∷ []) (gate_s q ∷ gate_s q ∷ [])

-- The same with a Clifford in front, which takes up the gates that follow it.
pub data Same (n : ℕ) : StabilizerTableau → List Item → StabilizerTableau → List Item → Type 0 where
  on_items : (c : StabilizerTableau) {xs ys : List Item} → Equal n xs ys → Same n c xs c ys
  back : {c d : StabilizerTableau} {xs ys : List Item} → Same n c xs d ys → Same n d ys c xs
  next :
      {c d e : StabilizerTableau} {xs ys zs : List Item}
      → Same n c xs d ys
      → Same n d ys e zs
      → Same n c xs e zs
  take_h :
      (c : StabilizerTableau) (q : ℕ) (xs : List Item)
      → Same n c (gate_h q ∷ xs) (Stabilizer.h c q) xs
  take_s :
      (c : StabilizerTableau) (q : ℕ) (xs : List Item)
      → Same n c (gate_s q ∷ xs) (Stabilizer.s c q) xs
  take_cx :
      (c : StabilizerTableau) (i j : ℕ) (xs : List Item)
      → Same n c (gate_cx i j ∷ xs) (Stabilizer.cx c i j) xs
