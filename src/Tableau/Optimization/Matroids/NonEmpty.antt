-- ===== src/Tableau/Optimization/Matroids/NonEmpty.antt =====
-- The assertion of the naive partition: no part is empty.
use qsyn.Prelude.{
  ℕ, ◌≡◌, bools_differ, refl, inl, inr, Bool, true, false, List, [], ◌∷◌, ◌++◌, reverse, Bool-cases,
}
use mathlib.Core.List.{reverse-cons}
use qsyn.Pauli.Rotation.{PauliRotation}
use qsyn.Tableau.Optimization.Matroids.{is_independent, add_term, add_terms, naive_partition}

-- The condition of the assertion at the end of the naive partition.
abbrev pub none_empty : List (List PauliRotation) → Bool
none_empty [] = true
none_empty ([] ∷ ms) = false
none_empty ((r ∷ rs) ∷ ms) = none_empty ms

none_empty-append :
    (ms ns : List (List PauliRotation))
    → none_empty ms ≡ true
    → none_empty ns ≡ true
    → none_empty (ms ++ ns) ≡ true
none_empty-append [] ns h g = g
none_empty-append ([] ∷ ms) ns h g = h
none_empty-append ((r ∷ rs) ∷ ms) ns h g = none_empty-append ms ns h g

none_empty-single :
    (m : List PauliRotation) (ms : List (List PauliRotation))
    → none_empty (m ∷ ms) ≡ true
    → (none_empty (m ∷ []) ≡ true) × (none_empty ms ≡ true)
none_empty-single [] ms h = (h, absurd (bools_differ h))
none_empty-single (r ∷ rs) ms h = (refl, h)

none_empty-reverse :
    (ms : List (List PauliRotation)) → none_empty ms ≡ true → none_empty (reverse ms) ≡ true
none_empty-reverse [] h = refl
none_empty-reverse (m ∷ ms) h =
    let parts = none_empty-single m ms h in
    rw (reverse-cons m ms)
      (none_empty-append (reverse ms) (m ∷ []) (none_empty-reverse ms parts.1) parts.0)

none_empty-snoc :
    (last : List PauliRotation) (r : PauliRotation) (ms : List (List PauliRotation))
    → none_empty ms ≡ true
    → none_empty ((last ++ r ∷ []) ∷ ms) ≡ true
none_empty-snoc [] r ms h = h
none_empty-snoc (u ∷ us) r ms h = h

none_empty-add_term :
    (k : ℕ) (ms : List (List PauliRotation)) (r : PauliRotation)
    → none_empty ms ≡ true
    → none_empty (add_term k ms r) ≡ true
unfolding add_term
none_empty-add_term k [] r h = refl
none_empty-add_term k (last ∷ ms) r h = elim (Bool-cases (is_independent (last ++ r ∷ []) k)) [
  | inl e ↦ rw e (none_empty-snoc last r ms (none_empty-single last ms h).1)
  | inr e ↦ rw e h
]

none_empty-add_terms :
    (k : ℕ) (ms : List (List PauliRotation)) (rs : List PauliRotation)
    → none_empty ms ≡ true
    → none_empty (add_terms k ms rs) ≡ true
unfolding add_terms
none_empty-add_terms k ms [] h = h
none_empty-add_terms k ms (r ∷ rs) h =
    none_empty-add_terms k (add_term k ms r) rs (none_empty-add_term k ms r h)

-- If the first term alone is independent, the naive partition has no empty part, as its assertion asks.
pub none_empty-naive_partition :
    (r : PauliRotation) (rs : List PauliRotation) (num_ancillae : ℕ)
    → is_independent (r ∷ []) num_ancillae ≡ true
    → none_empty (naive_partition (r ∷ rs) num_ancillae) ≡ true
unfolding naive_partition add_terms add_term
none_empty-naive_partition r rs k h =
    none_empty-reverse (add_terms k ([] ∷ []) (r ∷ rs))
      (rw h (none_empty-add_terms k ((r ∷ []) ∷ []) rs refl))
