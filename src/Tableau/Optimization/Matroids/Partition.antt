-- ===== src/Tableau/Optimization/Matroids/Partition.antt =====
-- `NaiveMatroidPartitionStrategy` splits the polynomial into consecutive independent parts.
use qsyn.Prelude.{
  ℕ, ◌≡◌, refl, ◌∙◌, sym, ap, ◌⊎◌, inl, inr, true, List, [], ◌∷◌, ◌++◌, reverse, Bool-cases, arith,
}
use mathlib.Core.List.{reverse-cons, append_assoc, append-nil}
use qsyn.Pauli.Rotation.{PauliRotation}
use qsyn.Tableau.Optimization.Matroids.{is_independent, add_term, add_terms, naive_partition}

abbrev pub join {ℓ} : {A : Type ℓ} → List (List A) → List A
join [] = []
join (x ∷ xs) = x ++ join xs

join-append {ℓ} : {A : Type ℓ} (xs ys : List (List A)) → join (xs ++ ys) ≡ join xs ++ join ys
join-append [] ys = refl
join-append (x ∷ xs) ys = ap (◌++◌ x) (join-append xs ys) ∙ sym (append_assoc x (join xs) (join ys))

-- A list of parts from the last, with what its parts make up.
abbrev joined : List (List PauliRotation) → List PauliRotation
joined ms = join (reverse ms)

joined-cons :
    (m : List PauliRotation) (ms : List (List PauliRotation)) → joined (m ∷ ms) ≡ joined ms ++ m
joined-cons m ms =
    ap join (reverse-cons m ms)
    ∙ join-append (reverse ms) (m ∷ [])
    ∙ ap (◌++◌ (joined ms)) (append-nil m)

-- A part is independent, or a single term.
abbrev pub IsPart : ℕ → List PauliRotation → Type 0
IsPart k m = (is_independent m k ≡ true) ⊎ ((r : PauliRotation) × (m ≡ r ∷ []))

abbrev pub AllParts : ℕ → List (List PauliRotation) → Type 0
AllParts k [] = Unit
AllParts k (m ∷ ms) = IsPart k m × AllParts k ms

AllParts-append :
    (k : ℕ) (ms ns : List (List PauliRotation))
    → AllParts k ms
    → AllParts k ns
    → AllParts k (ms ++ ns)
AllParts-append k [] ns h g = g
AllParts-append k (m ∷ ms) ns h g = (h.0, AllParts-append k ms ns h.1 g)

AllParts-reverse :
    (k : ℕ) (ms : List (List PauliRotation)) → AllParts k ms → AllParts k (reverse ms)
AllParts-reverse k [] h = tt
AllParts-reverse k (m ∷ ms) h =
    rw (reverse-cons m ms)
      (AllParts-append k (reverse ms) (m ∷ []) (AllParts-reverse k ms h.1) (h.0, tt))

module _ (k : ℕ) where
  joined-add_term :
      (ms : List (List PauliRotation)) (r : PauliRotation)
      → joined (add_term k ms r) ≡ joined ms ++ r ∷ []
  unfolding add_term
  joined-add_term [] r = refl
  joined-add_term (last ∷ ms) r = elim (Bool-cases (is_independent (last ++ r ∷ []) k)) [
    | inl h ↦ rw h (
        joined-cons (last ++ r ∷ []) ms
        ∙ sym (append_assoc (joined ms) last (r ∷ []))
        ∙ ap (λ xs. xs ++ r ∷ []) (sym (joined-cons last ms)))
    | inr h ↦ rw h (joined-cons (r ∷ []) (last ∷ ms))
  ]

  parts-add_term :
      (ms : List (List PauliRotation)) (r : PauliRotation)
      → AllParts k ms
      → AllParts k (add_term k ms r)
  unfolding add_term
  parts-add_term [] r h = (inr (r, refl), tt)
  parts-add_term (last ∷ ms) r h = elim (Bool-cases (is_independent (last ++ r ∷ []) k)) [
    | inl e ↦ rw e (inl e, h.1)
    | inr e ↦ rw e (inr (r, refl), h)
  ]

  joined-add_terms :
      (ms : List (List PauliRotation)) (rs : List PauliRotation)
      → joined (add_terms k ms rs) ≡ joined ms ++ rs
  unfolding add_terms
  joined-add_terms ms [] = sym (append-nil (joined ms))
  joined-add_terms ms (r ∷ rs) =
      joined-add_terms (add_term k ms r) rs
      ∙ ap (λ xs. xs ++ rs) (joined-add_term ms r)
      ∙ append_assoc (joined ms) (r ∷ []) rs

  parts-add_terms :
      (ms : List (List PauliRotation)) (rs : List PauliRotation)
      → AllParts k ms
      → AllParts k (add_terms k ms rs)
  unfolding add_terms
  parts-add_terms ms [] h = h
  parts-add_terms ms (r ∷ rs) h = parts-add_terms (add_term k ms r) rs (parts-add_term ms r h)

empty-IsPart : (k : ℕ) → IsPart k []
unfolding is_independent
empty-IsPart k = inl (ground arith)

-- The parts, in their order, make up the polynomial, and each of them is independent or a single term.
pub join-naive_partition :
    (polynomial : List PauliRotation) (num_ancillae : ℕ)
    → (join (naive_partition polynomial num_ancillae) ≡ polynomial)
      × AllParts num_ancillae (naive_partition polynomial num_ancillae)
unfolding naive_partition
join-naive_partition polynomial k = (
  joined-add_terms k ([] ∷ []) polynomial,
  AllParts-reverse k (add_terms k ([] ∷ []) polynomial)
      (parts-add_terms k ([] ∷ []) polynomial (empty-IsPart k, tt)),
)
