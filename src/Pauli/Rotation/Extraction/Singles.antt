-- ===== src/Pauli/Rotation/Extraction/Singles.antt =====
-- The first loop of `extract_clifford_operators`: every letter becomes a Z.
use qsyn.Prelude.{
  ◌+◌, ◌<◌, ◌≡◌, ◌∙◌, refl, sym, ap, Bool, true, false, xor, List, [], ◌∷◌, ◌++◌, map, length,
  length-append, get_or, set, arith,
}
use qsyn.Pauli.Product
use qsyn.Pauli.Product.{
  Pauli, Site, PauliProduct, pauli_of, n_qubits, no_site, all_sites, is_identity,
}
use qsyn.Pauli.Trait.{apply, apply_operator}
use qsyn.Pauli.Gates.{pauli_product, h_inside, s_inside, h_site, s_site, is_y_site}
use qsyn.Pauli.Strings.{apply-append}
use qsyn.Pauli.Rotation.{single_operator, single_operators, is_not_i}

-- The product over the sites of the two lists, with a sign.
abbrev at_middle : List Site → Site → List Site → Bool → PauliProduct
at_middle before a after n = record { sites = before ++ (a ∷ after); neg = n }

pub length-middle :
    (before after : List Site) (a : Site) → length before < length (before ++ (a ∷ after))
length-middle before after a = omega (arith, length-append before (a ∷ after))

pub get_or-middle :
    (before after : List Site) (a d : Site) → get_or (before ++ (a ∷ after)) (length before) d ≡ a
get_or-middle [] after a d = refl
get_or-middle (b ∷ before) after a d = get_or-middle before after a d

pub set-middle :
    (before after : List Site) (a b : Site)
    → set (before ++ (a ∷ after)) (length before) b ≡ before ++ (b ∷ after)
set-middle [] after a b = refl
set-middle (c ∷ before) after a b = ap (◌∷◌ c) (set-middle before after a b)

module _ (before after : List Site) (a : Site) (n : Bool) where
  h-middle :
      Product.h (at_middle before a after n) (length before)
      ≡ at_middle before (h_site a) after (xor (is_y_site a) n)
  h-middle =
      h_inside (at_middle before a after n) (length before) (length-middle before after a)
      ∙ rw (get_or-middle before after a no_site, set-middle before after a (h_site a)) refl

  s-middle :
      Product.s (at_middle before a after n) (length before)
      ≡ at_middle before (s_site a) after (xor (is_y_site a) n)
  s-middle =
      s_inside (at_middle before a after n) (length before) (length-middle before after a)
      ∙ rw (get_or-middle before after a no_site, set-middle before after a (s_site a)) refl

-- The letter that the first loop leaves.
abbrev pub to_z : Site → Site
to_z a = record { z_set = is_not_i a; x_set = false }

-- The sign stays, since the letter that v reads is not the one that it negates.
single-middle :
    (before after : List Site) (a : Site)
    → apply (at_middle before a after false) (single_operator (length before) (pauli_of a))
      ≡ at_middle before (to_z a) after false
unfolding apply apply_operator
single-middle before after a = go a.z_set a.x_set
  where
    go :
        (z x : Bool)
        → let b : Site = record { z_set = z; x_set = x } in
          apply (at_middle before b after false) (single_operator (length before) (pauli_of b))
          ≡ at_middle before (to_z b) after false
    go false false = refl
    go false true = h-middle before after (record { z_set = false; x_set = true }) false
    go true false = refl
    go true true =
        rw
          (
            h-middle before after (record { z_set = true; x_set = true }) false,
            s-middle before after (record { z_set = true; x_set = true }) true,
            h-middle before after (record { z_set = false; x_set = true }) false,
          )
          refl

abbrev pub positive : List Site → PauliProduct
positive as' = record { sites = as'; neg = false }

append-middle : {A : Type 0} (xs ys : List A) (x : A) → xs ++ x ∷ ys ≡ (xs ++ x ∷ []) ++ ys
append-middle [] ys x = refl
append-middle (w ∷ xs) ys x = ap (◌∷◌ w) (append-middle xs ys x)

length-snoc : {A : Type 0} (xs : List A) (x : A) → length (xs ++ x ∷ []) ≡ length xs + 1
length-snoc [] x = refl
length-snoc (w ∷ xs) x = omega (arith, length-snoc xs x)

-- The first loop leaves a Z wherever there was a letter.
pub apply-single_operators_from :
    (before after : List Site)
    → apply (positive (before ++ after)) (single_operators (length before) after)
      ≡ positive (before ++ map to_z after)
unfolding single_operators
apply-single_operators_from before [] = unfold apply in refl
apply-single_operators_from before (a ∷ after) =
    apply-append (positive (before ++ a ∷ after)) (single_operator (length before) (pauli_of a))
      (single_operators (length before + 1) after)
    ∙ rw
        (
          single-middle before after a,
          append-middle before after (to_z a),
          sym (length-snoc before (to_z a)),
          apply-single_operators_from (before ++ to_z a ∷ []) after,
          append-middle before (map to_z after) (to_z a),
        )
        refl
