-- ===== src/Tableau/Optimization/Rotations/Absorb.antt =====
-- The loop of `absorb_clifford_rotations` keeps the circuit.
use qsyn.Prelude.{ℕ, ◌≡◌, refl, ap, false, List, [], ◌∷◌, ◌++◌}
use qsyn.Prelude.Int.{pos}
use qsyn.Pauli.Product.{PauliProduct, n_qubits, is_identity}
use qsyn.Pauli.Rotation.{PauliRotation}
use qsyn.Tableau.Equivalence.{Item, rotate, Equal, item_of, items_of}
use qsyn.Tableau.Equivalence.Gates.{AllWidth}
use qsyn.Tableau.Equivalence.Laws.{prefix, suffix}
use qsyn.Util.Phase.{phase_of}

-- What the passes rely on: a product over `n` qubits, without a sign, that is not the identity.
abbrev pub IsSound : ℕ → PauliProduct → Type 0
IsSound n p = (n_qubits p ≡ n) × (p.neg ≡ false) × (is_identity p ≡ false)

abbrev pub AllSound : ℕ → List PauliRotation → Type 0
AllSound n [] = Unit
AllSound n (r ∷ rs) = IsSound n r.product × AllSound n rs

pub AllWidth-snoc :
    (n : ℕ) (rs : List PauliRotation) (r : PauliRotation)
    → AllWidth n rs
    → n_qubits r.product ≡ n
    → AllWidth n (rs ++ r ∷ [])
AllWidth-snoc n [] r w h = (h, tt)
AllWidth-snoc n (u ∷ us) r w h = (w.0, AllWidth-snoc n us r w.1 h)

pub items-snoc :
    (rs : List PauliRotation) (r : PauliRotation) (ys : List Item)
    → items_of (rs ++ r ∷ []) ++ ys ≡ items_of rs ++ item_of r ∷ ys
items-snoc [] r ys = refl
items-snoc (u ∷ us) r ys = ap (◌∷◌ (item_of u)) (items-snoc us r ys)

module _ (n : ℕ) where
  -- A rotation without an angle can stand anywhere.
  pub insert-no_angle :
      (us vs : List Item) (p : PauliProduct)
      → Equal n (us ++ vs) (us ++ rotate p (phase_of (pos 0)) ∷ vs)
  insert-no_angle us vs p = prefix n us (suffix n vs (Equal.flip (Equal.no_angle p)))
