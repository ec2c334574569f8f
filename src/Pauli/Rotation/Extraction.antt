-- ===== src/Pauli/Rotation/Extraction.antt =====
-- `extract_clifford_operators`: the operators turn a rotation into one about Z on one qubit.
pub mod Singles
pub mod Cx
use qsyn.Prelude.{
  ℕ, zero, suc, ◌+◌, ◌<◌, ◌≡◌, ◌∙◌, refl, sym, ap, subst, Bool, true, false, not, xor, ◌&&◌, List,
  [], ◌∷◌, ◌++◌, map, length, length-append, get_or, set, replicate, length-replicate, arith,
}
use mathlib.Core.List.{append_assoc, append-nil}
use qsyn.Pauli.Product
use qsyn.Pauli.Product.{
  Pauli, Site, PauliProduct, pauli_of, n_qubits, no_site, all_sites, is_identity,
}
use qsyn.Pauli.Trait.{apply, apply_operator}
use qsyn.Pauli.Gates.{pauli_product, h_inside, s_inside, cx_inside, h_site, s_site, is_y_site}
use qsyn.Pauli.Strings.{apply-append}
use qsyn.Pauli.Rotation.Extraction.Singles.{positive, to_z, apply-single_operators_from}
use qsyn.Pauli.Rotation.Extraction.Cx.{
  z_site, z_on, zero_plus, plus_zero, replicate-snoc, z_on-split, cx-replicate,
}
use qsyn.Pauli.Rotation.{
  single_operator, single_operators, non_i_qubits, adjacent_cxs, back, is_not_i,
  extract_clifford_operators, PauliRotation,
}

-- The identity on the first qubits, then a Z, then identities before the sites still to be visited.
abbrev z_before : ℕ → ℕ → List Site → List Site
z_before k m after = replicate k no_site ++ z_site ∷ (replicate m no_site ++ map to_z after)

-- The claim of the induction below, with the numbers as variables.
abbrev Carries : List Site → ℕ → ℕ → ℕ → List Site → Type 0
Carries sites c i n after =
    apply (positive sites) (adjacent_cxs (c ∷ non_i_qubits i after))
    ≡ z_on n (back (c ∷ non_i_qubits i after))

Carries-at :
    (sites : List Site) (c : ℕ) (after : List Site) {i j n l : ℕ}
    → Carries sites c i n after
    → i ≡ j
    → n ≡ l
    → Carries sites c j l after
Carries-at sites c after {i = i} {l = l} h e d =
    subst (λ i. Carries sites c i l after) e (subst (λ n. Carries sites c i n after) d h)

-- At a letter the Z moves there by a cx, and at the identity nothing happens.
carry-step :
    (k m : ℕ) (a : Site) (after : List Site) (b : Bool)
    → is_not_i a ≡ b
    → Carries
        (z_before (k + 1 + m) 0 after)
        (k + 1 + m)
        (k + 1 + m + 1 + 0)
        (k + 1 + m + 1 + 0 + length after)
        after
    → Carries (z_before k (m + 1) after) k (k + 1 + (m + 1)) (k + 1 + (m + 1) + length after) after
    → Carries (z_before k m (a ∷ after)) k (k + 1 + m) (k + 1 + m + suc (length after)) (a ∷ after)
unfolding non_i_qubits adjacent_cxs apply apply_operator
carry-step k m a after true e moved shifted = rw e (
    ap (λ p. apply p (adjacent_cxs ((k + 1 + m) ∷ non_i_qubits (k + 1 + m + 1) after)))
      (cx-replicate k m (map to_z after))
    ∙ Carries-at (z_before (k + 1 + m) 0 after) (k + 1 + m) after moved (omega arith) (omega arith))
carry-step k m a after false e moved shifted =
    rw (e, replicate-snoc m (map to_z after) no_site)
      (Carries-at (z_before k (m + 1) after) k after shifted (omega arith) (omega arith))

apply-adjacent_cxs_from :
    (k m : ℕ) (after : List Site)
    → Carries (z_before k m after) k (k + 1 + m) (k + 1 + m + length after) after
apply-adjacent_cxs_from k m [] =
    unfold non_i_qubits adjacent_cxs apply in
    rw (append-nil (replicate m no_site), plus_zero (k + 1 + m)) (sym (z_on-split k m))
apply-adjacent_cxs_from k m (a ∷ after) =
    carry-step k m a after (is_not_i a) refl (apply-adjacent_cxs_from (k + 1 + m) 0 after)
      (apply-adjacent_cxs_from k (m + 1) after)

-- The claim for the sites after identities, whose first letter starts the chain of cxs.
Chains : ℕ → List Site → Type 0
Chains k after =
    apply (positive (replicate k no_site ++ map to_z after)) (adjacent_cxs (non_i_qubits k after))
    ≡ z_on (k + length after) (back (non_i_qubits k after))

plus_one_plus : (k n : ℕ) → k + 1 + n ≡ k + suc n
plus_one_plus k n = omega arith

rest-false :
    (a : Site) (after : List Site)
    → is_not_i a ≡ false
    → all_sites (λ a. not a.z_set && not a.x_set) (a ∷ after) ≡ false
    → all_sites (λ a. not a.z_set && not a.x_set) after ≡ false
rest-false a after e some = ground (arith, e, some)

chain-step :
    (k : ℕ) (a : Site) (after : List Site) (b : Bool)
    → is_not_i a ≡ b
    → all_sites (λ a. not a.z_set && not a.x_set) (a ∷ after) ≡ false
    → (all_sites (λ a. not a.z_set && not a.x_set) after ≡ false → Chains (k + 1) after)
    → Chains k (a ∷ after)
unfolding non_i_qubits Chains
chain-step k a after true e some next = rw e (
    Carries-at (z_before k 0 after) k after (apply-adjacent_cxs_from k 0 after) (omega arith)
      (omega arith))
chain-step k a after false e some next =
    rw (e, replicate-snoc k (map to_z after) no_site)
      (next (rest-false a after e some)
        ∙ ap (λ n. z_on n (back (non_i_qubits (k + 1) after))) (plus_one_plus k (length after)))

chain :
    (k : ℕ) (after : List Site)
    → all_sites (λ a. not a.z_set && not a.x_set) after ≡ false
    → Chains k after
chain k [] some = ground (arith, some)
chain k (a ∷ after) some = chain-step k a after (is_not_i a) refl some (chain (k + 1) after)

-- For a product without a sign that is not the identity, the operators lead to the product with a Z on the
-- qubit that is returned, the identity on the others, and no sign.
pub apply-extract_clifford_operators :
    (r : PauliRotation)
    → r.product.neg ≡ false
    → is_identity r.product ≡ false
    → apply r.product (extract_clifford_operators r).0
      ≡ z_on (n_qubits r.product) (extract_clifford_operators r).1
unfolding extract_clifford_operators Chains is_identity
apply-extract_clifford_operators r e some =
    apply-append r.product (single_operators 0 r.product.sites)
      (adjacent_cxs (non_i_qubits 0 r.product.sites))
    ∙ rw (e, apply-single_operators_from [] r.product.sites)
        (chain 0 r.product.sites some
          ∙ ap (λ n. z_on n (back (non_i_qubits 0 r.product.sites)))
              (zero_plus (n_qubits r.product)))
