-- ===== src/Pauli/Rotation/Extraction/Cx.antt =====
-- A cx between two Zs, and the product with one Z.
use qsyn.Prelude.{
  ℕ, zero, suc, ◌+◌, ◌<◌, ◌≡◌, ◌∙◌, refl, sym, ap, subst, true, false, List, [], ◌∷◌, ◌++◌, length,
  length-append, get_or, set, replicate, length-replicate, arith,
}
use mathlib.Core.List.{append_assoc}
use qsyn.Pauli.Product
use qsyn.Pauli.Product.{
  Pauli, Site, PauliProduct, pauli_of, n_qubits, no_site, all_sites, is_identity,
}
use qsyn.Pauli.Gates.{pauli_product, cx_inside}
use qsyn.Pauli.Rotation.Extraction.Singles.{positive, length-middle, get_or-middle, set-middle}

abbrev pub z_site : Site
z_site = record { z_set = true; x_set = false }

-- The same list with its second Z in the middle.
second-middle :
    (xs ys zs : List Site) (a b : Site) → xs ++ (a ∷ (ys ++ (b ∷ zs))) ≡ (xs ++ a ∷ ys) ++ b ∷ zs
second-middle [] ys zs a b = refl
second-middle (w ∷ xs) ys zs a b = ap (◌∷◌ w) (second-middle xs ys zs a b)

second-length : (xs ys : List Site) (a : Site) → length (xs ++ a ∷ ys) ≡ length xs + 1 + length ys
second-length xs ys a = omega (arith, length-append xs (a ∷ ys))

-- A cx between two Zs clears the first.
cx-middle :
    (xs ys zs : List Site)
    → Product.cx
        (positive (xs ++ z_site ∷ (ys ++ (z_site ∷ zs))))
        (length xs)
        (length xs + 1 + length ys)
      ≡ positive (xs ++ no_site ∷ (ys ++ (z_site ∷ zs)))
cx-middle xs ys zs =
    cx_inside (positive (xs ++ z_site ∷ (ys ++ (z_site ∷ zs)))) (length xs)
      (length xs + 1 + length ys) (length-middle xs (ys ++ z_site ∷ zs) z_site) inside
      (λ e. omega arith)
    ∙ rw
        (
          get_or-middle xs (ys ++ z_site ∷ zs) z_site no_site,
          target,
          unchanged,
          set-middle xs (ys ++ z_site ∷ zs) z_site no_site,
        )
        refl
  where
    inside : length xs + 1 + length ys < length (xs ++ z_site ∷ (ys ++ (z_site ∷ zs)))
    inside =
        omega
          (arith, length-append xs (z_site ∷ (ys ++ (z_site ∷ zs))), length-append ys (z_site ∷ zs))

    target :
        get_or (xs ++ z_site ∷ (ys ++ (z_site ∷ zs))) (length xs + 1 + length ys) no_site ≡ z_site
    target =
        rw (second-middle xs ys zs z_site z_site, sym (second-length xs ys z_site))
          (get_or-middle (xs ++ z_site ∷ ys) zs z_site no_site)

    unchanged :
        set (xs ++ z_site ∷ (ys ++ (z_site ∷ zs))) (length xs + 1 + length ys) z_site
        ≡ xs ++ z_site ∷ (ys ++ (z_site ∷ zs))
    unchanged =
        rw (second-middle xs ys zs z_site z_site, sym (second-length xs ys z_site))
          (set-middle (xs ++ z_site ∷ ys) zs z_site z_site)

pub zero_plus : (n : ℕ) → 0 + n ≡ n
zero_plus n = omega arith

suc_plus : (k n : ℕ) → suc k + n ≡ suc (k + n)
suc_plus k n = omega arith

replicate-plus :
    {A : Type 0} (k n : ℕ) (x : A) → replicate (k + n) x ≡ replicate k x ++ replicate n x
replicate-plus zero n x = ap (λ k. replicate k x) (zero_plus n)
replicate-plus (suc k) n x = rw (suc_plus k n) (ap (◌∷◌ x) (replicate-plus k n x))

pub plus_zero : (n : ℕ) → n + 0 ≡ n
plus_zero n = omega arith

one_plus : (n : ℕ) → 1 + n ≡ suc n
one_plus n = omega arith

suc_plus_plus : (k m : ℕ) → suc k + 1 + m ≡ suc (k + 1 + m)
suc_plus_plus k m = omega arith

-- The product with a Z on one qubit and the identity on the others.
abbrev pub z_on : ℕ → ℕ → PauliProduct
z_on n q = positive (set (replicate n no_site) q z_site)

pub replicate-snoc :
    {A : Type 0} (m : ℕ) (ys : List A) (x : A) → replicate m x ++ x ∷ ys ≡ replicate (m + 1) x ++ ys
replicate-snoc zero ys x = refl
replicate-snoc (suc m) ys x = rw (suc_plus m 1) (ap (◌∷◌ x) (replicate-snoc m ys x))

pub z_on-split :
    (k m : ℕ) → z_on (k + 1 + m) k ≡ positive (replicate k no_site ++ z_site ∷ replicate m no_site)
z_on-split k m = ap positive (go k)
  where
    go :
        (k : ℕ)
        → set (replicate (k + 1 + m) no_site) k z_site
          ≡ replicate k no_site ++ z_site ∷ replicate m no_site
    go zero = ap (λ n. set (replicate n no_site) 0 z_site) (one_plus m)
    go (suc k) =
        ap (λ n. set (replicate n no_site) (suc k) z_site) (suc_plus_plus k m)
        ∙ ap (◌∷◌ no_site) (go k)

pub cx-replicate :
    (k m : ℕ) (zs : List Site)
    → Product.cx
        (positive (replicate k no_site ++ z_site ∷ (replicate m no_site ++ (z_site ∷ zs))))
        k
        (k + 1 + m)
      ≡ positive (replicate (k + 1 + m) no_site ++ z_site ∷ zs)
cx-replicate k m zs =
    subst
      (λ q.
        Product.cx
          (positive (replicate k no_site ++ z_site ∷ (replicate m no_site ++ (z_site ∷ zs)))) q
          (q + 1 + m)
        ≡ positive (replicate (k + 1 + m) no_site ++ z_site ∷ zs))
      (length-replicate k no_site)
      (subst
        (λ r.
          Product.cx
            (positive (replicate k no_site ++ z_site ∷ (replicate m no_site ++ (z_site ∷ zs))))
            (length (replicate k no_site)) (length (replicate k no_site) + 1 + r)
          ≡ positive (replicate (k + 1 + m) no_site ++ z_site ∷ zs))
        (length-replicate m no_site)
        (cx-middle (replicate k no_site) (replicate m no_site) zs ∙ ap positive joined))
  where
    joined :
        replicate k no_site ++ no_site ∷ (replicate m no_site ++ (z_site ∷ zs))
        ≡ replicate (k + 1 + m) no_site ++ z_site ∷ zs
    joined =
        replicate-snoc k (replicate m no_site ++ z_site ∷ zs) no_site
        ∙ rw
            (
              replicate-plus (k + 1) m no_site,
              append_assoc (replicate (k + 1) no_site) (replicate m no_site) (z_site ∷ zs),
            )
            refl
