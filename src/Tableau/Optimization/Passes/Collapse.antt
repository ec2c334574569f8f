-- ===== src/Tableau/Optimization/Passes/Collapse.antt =====
-- `collapse`: what it leaves, and how many rotations.
use qsyn.Prelude.{
  bools_differ, ℕ, suc, ◌+◌, ◌≤◌, ◌≡◌, refl, ◌∙◌, sym, ap, Bool, true, false, List, [], ◌∷◌, ◌++◌,
  map, reverse, length, length-append, length-map, Bool-cases, inl, inr, arith, ltb, lt→ltb,
}
use qsyn.Pauli.Operator.{CliffordOperatorString}
use qsyn.Pauli.Rotation.{PauliRotation, pauli_rotation}
use qsyn.Pauli.Trait.{apply}
use qsyn.Tableau.Optimization.Identities.{erase_if}
use qsyn.Tableau.Optimization.Passes.{
  with_front, sweep, rotations_of, join_rotations, merge_lists, after_sweep, collapse_list,
  collapse, merge_collapsed, merge_rotations_tableau,
}
use qsyn.Tableau.Optimization.Passes.Loop.{length-merge_loop}
use qsyn.Tableau.Stabilizer.{StabilizerTableau, stabilizer_tableau, identity}
use qsyn.Tableau.SubTableaux.{
  SubTableau, clifford, rotations, Tableau, Extraction, is_clifford, sum_rotations,
  n_pauli_rotations,
}
use mathlib.Core.List.{reverse-cons, map-append, reverse-reverse, head-eq_of_cons-eq}

-- What a list of subtableaux may collapse to: nothing if it is empty, and otherwise a Clifford, or a
-- Clifford and one list of rotations.
pub data IsCollapsed : List SubTableau → List SubTableau → Type 0 where
  none : IsCollapsed [] []
  only :
      (u : SubTableau) (us : List SubTableau) (t : StabilizerTableau)
      → IsCollapsed (u ∷ us) (clifford t ∷ [])
  both :
      (u : SubTableau) (us : List SubTableau) (t : StabilizerTableau) (rs : List PauliRotation)
      → IsCollapsed (u ∷ us) (clifford t ∷ rotations rs ∷ [])

sum-append :
    (us vs : List SubTableau) → sum_rotations (us ++ vs) ≡ sum_rotations us + sum_rotations vs
sum-append [] vs = omega arith
sum-append (u ∷ us) vs = omega (arith, sum-append us vs)

sum-reverse : (us : List SubTableau) → sum_rotations (reverse us) ≡ sum_rotations us
sum-reverse [] = refl
sum-reverse (u ∷ us) =
    ap sum_rotations (reverse-cons u us)
    ∙ sum-append (reverse us) (u ∷ [])
    ∙ omega (arith, sum-reverse us)

sum-sweep :
    (extract : Extraction) (ops : CliffordOperatorString) (us : List SubTableau)
    → sum_rotations (sweep extract ops us) ≡ sum_rotations us
unfolding sweep
sum-sweep extract ops [] = refl
sum-sweep extract ops (clifford t ∷ us) =
    ap (λ k. 0 + k) (sum-sweep extract (extract (apply t ops)) us)
sum-sweep extract ops (rotations rs ∷ us) =
    omega (arith, sum-sweep extract ops us, length-map rs (λ r. apply r ops))

sum-join : (us : List SubTableau) → length (join_rotations us) ≡ sum_rotations us
sum-join [] = refl
sum-join (clifford t ∷ us) = omega (arith, sum-join us)
sum-join (rotations rs ∷ us) = omega (arith, sum-join us, length-append rs (join_rotations us))

sum-erase : (us : List SubTableau) → sum_rotations (erase_if is_clifford us) ≡ sum_rotations us
sum-erase [] = refl
sum-erase (clifford t ∷ us) = omega (arith, sum-erase us)
sum-erase (rotations rs ∷ us) = omega (arith, sum-erase us)

sum-merge_lists : (us : List SubTableau) → sum_rotations (merge_lists us) ≡ sum_rotations us
sum-merge_lists [] = refl
sum-merge_lists (clifford t ∷ us) = omega (arith, sum-join us)
sum-merge_lists (rotations rs ∷ us) =
    omega (arith, sum-join us, length-append rs (join_rotations us))

sum-after_sweep : (us : List SubTableau) → sum_rotations (after_sweep us) ≡ sum_rotations us
sum-after_sweep [] = refl
sum-after_sweep (u ∷ us) = omega (arith, sum-merge_lists (erase_if is_clifford us), sum-erase us)

sum-with_front : (n : ℕ) (us : List SubTableau) → sum_rotations (with_front n us) ≡ sum_rotations us
unfolding with_front
sum-with_front n [] = refl
sum-with_front n (clifford t ∷ us) = refl
sum-with_front n (rotations rs ∷ us) = omega arith

sum-collapse_list :
    (extract : Extraction) (n : ℕ) (us : List SubTableau)
    → sum_rotations (collapse_list extract n us) ≡ sum_rotations us
unfolding collapse_list
sum-collapse_list extract n [] = refl
sum-collapse_list extract n (u ∷ us) =
    let fronted = with_front n (u ∷ us) in
    elim (Bool-cases (ltb 1 (length fronted))) [
      | inl h ↦ rw h (
          sum-after_sweep (reverse (sweep extract [] (reverse fronted)))
          ∙ sum-reverse (sweep extract [] (reverse fronted))
          ∙ sum-sweep extract [] (reverse fronted)
          ∙ sum-reverse fronted
          ∙ sum-with_front n (u ∷ us))
      | inr h ↦ rw h (sum-with_front n (u ∷ us))
    ]

-- `collapse` keeps the number of rotations.
pub n_pauli_rotations-collapse :
    (extract : Extraction) (t : Tableau)
    → n_pauli_rotations (collapse extract t) ≡ n_pauli_rotations t
unfolding n_pauli_rotations collapse
n_pauli_rotations-collapse extract t = sum-collapse_list extract t.n_qubits t.subtableaux

sum-merge_collapsed : (us : List SubTableau) → sum_rotations (merge_collapsed us) ≤ sum_rotations us
sum-merge_collapsed [] = omega arith
sum-merge_collapsed (clifford c ∷ []) = omega arith
sum-merge_collapsed (clifford c ∷ clifford d ∷ us) = omega arith
sum-merge_collapsed (clifford c ∷ rotations rs ∷ us) =
    omega (arith, length-merge_loop (suc (length rs)) c rs)
sum-merge_collapsed (rotations rs ∷ us) = omega arith

-- Merging the rotations of a tableau never adds one.
pub n_pauli_rotations-merge_rotations :
    (extract : Extraction) (t : Tableau)
    → n_pauli_rotations (merge_rotations_tableau extract t) ≤ n_pauli_rotations t
unfolding merge_rotations_tableau n_pauli_rotations collapse
n_pauli_rotations-merge_rotations extract t = omega (
  arith,
  sum-merge_collapsed (collapse extract t).subtableaux,
  sum-collapse_list extract t.n_qubits t.subtableaux,
)

kinds-sweep :
    (extract : Extraction) (ops : CliffordOperatorString) (us : List SubTableau)
    → map is_clifford (sweep extract ops us) ≡ map is_clifford us
unfolding sweep
kinds-sweep extract ops [] = refl
kinds-sweep extract ops (clifford t ∷ us) =
    ap (◌∷◌ true) (kinds-sweep extract (extract (apply t ops)) us)
kinds-sweep extract ops (rotations rs ∷ us) = ap (◌∷◌ false) (kinds-sweep extract ops us)

map-reverse {ℓ κ} :
    {A : Type ℓ} {B : Type κ} (f : A → B) (xs : List A) → map f (reverse xs) ≡ reverse (map f xs)
map-reverse f [] = refl
map-reverse f (x ∷ xs) =
    ap (map f) (reverse-cons x xs)
    ∙ map-append f (reverse xs) (x ∷ [])
    ∙ ap (λ ys. ys ++ f x ∷ []) (map-reverse f xs)
    ∙ sym (reverse-cons (f x) (map f xs))

merge_lists-kind :
    (o : SubTableau) (os : List SubTableau) (t : StabilizerTableau) (us : List SubTableau)
    → IsCollapsed (o ∷ os) (clifford t ∷ merge_lists us)
merge_lists-kind o os t [] = IsCollapsed.only o os t
merge_lists-kind o os t (u ∷ us) = IsCollapsed.both o os t (rotations_of u ++ join_rotations us)

after_sweep-IsCollapsed :
    (o : SubTableau) (os us : List SubTableau) (bs : List Bool)
    → map is_clifford us ≡ true ∷ bs
    → IsCollapsed (o ∷ os) (after_sweep us)
after_sweep-IsCollapsed o os [] bs h = absurd (omega (arith, ap length h))
after_sweep-IsCollapsed o os (clifford t ∷ us) bs h =
    merge_lists-kind o os t (erase_if is_clifford us)
after_sweep-IsCollapsed o os (rotations rs ∷ us) bs h = absurd (bools_differ (head-eq_of_cons-eq h))

swept-IsCollapsed :
    (extract : Extraction) (o : SubTableau) (os us : List SubTableau) (bs : List Bool)
    → map is_clifford us ≡ true ∷ bs
    → IsCollapsed (o ∷ os) (after_sweep (reverse (sweep extract [] (reverse us))))
swept-IsCollapsed extract o os us bs h =
    after_sweep-IsCollapsed o os (reverse (sweep extract [] (reverse us))) bs (
      map-reverse is_clifford (sweep extract [] (reverse us))
      ∙ ap reverse (kinds-sweep extract [] (reverse us) ∙ map-reverse is_clifford us)
      ∙ reverse-reverse (map is_clifford us)
      ∙ h)

collapse_list-IsCollapsed :
    (extract : Extraction) (n : ℕ) (us : List SubTableau)
    → IsCollapsed us (collapse_list extract n us)
unfolding collapse_list with_front
collapse_list-IsCollapsed extract n [] = IsCollapsed.none
collapse_list-IsCollapsed extract n (clifford t ∷ []) = IsCollapsed.only (clifford t) [] t
collapse_list-IsCollapsed extract n (clifford t ∷ u ∷ us) =
    rw (lt→ltb 1 (suc (suc (length us))) (omega arith)) (
      swept-IsCollapsed extract (clifford t) (u ∷ us) (clifford t ∷ u ∷ us)
        (map is_clifford (u ∷ us)) refl)
collapse_list-IsCollapsed extract n (rotations rs ∷ us) =
    rw (lt→ltb 1 (suc (suc (length us))) (omega arith)) (
      swept-IsCollapsed extract (rotations rs) us (clifford (identity n) ∷ rotations rs ∷ us)
        (map is_clifford (rotations rs ∷ us)) refl)

-- `collapse` leaves nothing of an empty tableau, and of any other one Clifford and at most one list of
-- rotations after it.
pub collapse-IsCollapsed :
    (extract : Extraction) (t : Tableau)
    → IsCollapsed t.subtableaux (collapse extract t).subtableaux
unfolding collapse
collapse-IsCollapsed extract t = collapse_list-IsCollapsed extract t.n_qubits t.subtableaux
