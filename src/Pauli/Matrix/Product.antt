-- ===== src/Pauli/Matrix/Product.antt =====
-- `operator*` against the product of the matrices, and `is_commutative` against their commuting.
use qsyn.Prelude.{
  ℕ, ◌+◌, ◌*◌, ◌%◌, ◌≡◌, ◌∙◌, refl, ap, ap₂, sym, arith, Bool, true, false, not, xor, List, [], ◌∷◌,
  length, ◌↔◌, ◌==◌, ◌&&◌,
}
use qsyn.Pauli.Product.{
  PauliProduct, Site, n_qubits, xor_site, xor_sites, ◌⊙◌, is_commutative, commutes_from,
}
use qsyn.Pauli.Power.{bit, site_power, total, is_half, neg-⊙}
use qsyn.Pauli.Conjugation.{sites-⊙}
use qsyn.Pauli.Local.{product_ext}
use qsyn.Pauli.Matrix.{Basis, exponent, sum_exponent, act, act_sites, site_exponent, site_act}

site_product :
    (a b : Site) (v : Bool)
    → (site_exponent a (site_act b v) + site_exponent b v) % 4
      ≡ (site_power a b + site_exponent (xor_site a b) v) % 4
unfolding site_power
site_product a b v = ground arith

sum_product :
    (xs ys : List Site) (bs : Basis)
    → length xs ≡ length ys
    → length bs ≡ length xs
    → (sum_exponent xs (act_sites ys bs) + sum_exponent ys bs) % 4
      ≡ (total xs ys + sum_exponent (xor_sites xs ys) bs) % 4
unfolding sum_exponent total
sum_product [] [] bs h k = refl
sum_product [] (y ∷ ys) bs h k = absurd (omega arith)
sum_product (x ∷ xs) [] bs h k = absurd (omega arith)
sum_product (x ∷ xs) (y ∷ ys) [] h k = absurd (omega arith)
sum_product (x ∷ xs) (y ∷ ys) (b ∷ bs) h k =
    omega (arith, site_product x y b, sum_product xs ys bs (omega arith) (omega arith))

act_sites-xor_sites :
    (xs ys : List Site) (bs : Basis)
    → length xs ≡ length ys
    → act_sites xs (act_sites ys bs) ≡ act_sites (xor_sites xs ys) bs
act_sites-xor_sites [] [] bs h = refl
act_sites-xor_sites [] (y ∷ ys) bs h = absurd (omega arith)
act_sites-xor_sites (x ∷ xs) [] bs h = absurd (omega arith)
act_sites-xor_sites (x ∷ xs) (y ∷ ys) [] h = refl
act_sites-xor_sites (x ∷ xs) (y ∷ ys) (b ∷ bs) h =
    ap₂ ◌∷◌ (site_act_twice x y b) (act_sites-xor_sites xs ys bs (omega arith))
  where
    site_act_twice : (x y : Site) (b : Bool) → site_act x (site_act y b) ≡ site_act (xor_site x y) b
    site_act_twice x y b = ground arith

abbrev pub is_odd : ℕ → Bool
is_odd n = n % 2 == 1

commutes_from-total :
    (acc : Bool) (xs ys : List Site) → commutes_from acc xs ys ≡ xor acc (is_odd (total xs ys))
unfolding commutes_from total site_power
commutes_from-total acc [] ys = ground arith
commutes_from-total acc (x ∷ xs) [] = ground arith
commutes_from-total acc (x ∷ xs) (y ∷ ys) =
    commutes_from-total (xor acc (xor (x.z_set && y.x_set) (x.x_set && y.z_set))) xs ys
    ∙ step acc x y (total xs ys)
  where
    step :
        (acc : Bool) (x y : Site) (n : ℕ)
        → xor (xor acc (xor (x.z_set && y.x_set) (x.x_set && y.z_set))) (is_odd n)
          ≡ xor acc (is_odd (site_power x y + n))
    step acc x y n = ground arith

is_commutative-total :
    (p q : PauliProduct) → is_commutative p q ≡ not (is_odd (total p.sites q.sites))
unfolding is_commutative
is_commutative-total p q = commutes_from-total true p.sites q.sites

-- For products over the same qubits and every basis state of these: applying q and then p moves the state as their product does, and gives the
-- product's power of i, with one factor i more exactly if `is_commutative` fails.
pub ⊙-matrix :
    (p q : PauliProduct) (b : Basis)
    → n_qubits p ≡ n_qubits q
    → length b ≡ n_qubits p
    → (act p (act q b) ≡ act (p ⊙ q) b)
      × ((exponent p (act q b) + exponent q b) % 4
          ≡ (exponent (p ⊙ q) b + bit (not (is_commutative p q))) % 4)
unfolding act exponent
⊙-matrix p q b same fits = (
  act_sites-xor_sites p.sites q.sites b same ∙ ap (λ l. act_sites l b) (sym (sites-⊙ p q)),
  rw (neg-⊙ p q, sites-⊙ p q, is_commutative-total p q)
      (signs (total p.sites q.sites) _ _ _ p.neg q.neg (sum_product p.sites q.sites b same fits)),
)
  where
    signs :
        (t m n k : ℕ) (u v : Bool)
        → (m + n) % 4 ≡ (t + k) % 4
        → (2 * bit u + m + (2 * bit v + n)) % 4
          ≡ (2 * bit (xor (xor (is_half t) u) v) + k + bit (not (not (is_odd t)))) % 4
    signs t m n k true true e = ground arith
    signs t m n k true false e = ground arith
    signs t m n k false true e = ground arith
    signs t m n k false false e = ground arith

site_power_comm : (a b : Site) → (site_power a b + site_power b a) % 4 ≡ 0
unfolding site_power
site_power_comm a b = ground arith

total_comm : (xs ys : List Site) → length xs ≡ length ys → (total xs ys + total ys xs) % 4 ≡ 0
unfolding total
total_comm [] [] h = refl
total_comm [] (y ∷ ys) h = absurd (omega arith)
total_comm (x ∷ xs) [] h = absurd (omega arith)
total_comm (x ∷ xs) (y ∷ ys) h = omega (arith, site_power_comm x y, total_comm xs ys (omega arith))

xor_sites_comm : (xs ys : List Site) → length xs ≡ length ys → xor_sites xs ys ≡ xor_sites ys xs
xor_sites_comm [] [] h = refl
xor_sites_comm [] (y ∷ ys) h = absurd (omega arith)
xor_sites_comm (x ∷ xs) [] h = absurd (omega arith)
xor_sites_comm (x ∷ xs) (y ∷ ys) h =
    ap₂ ◌∷◌ (xor_site_comm x y) (xor_sites_comm xs ys (omega arith))
  where
    xor_site_comm : (a b : Site) → xor_site a b ≡ xor_site b a
    xor_site_comm a b = ground arith

-- For Pauli products over the same qubits, `is_commutative` holds exactly when the two products of
-- `operator*` agree, sign included.
pub is_commutative_iff :
    (p q : PauliProduct) → n_qubits p ≡ n_qubits q → (is_commutative p q ≡ true) ↔ (p ⊙ q ≡ q ⊙ p)
is_commutative_iff p q same = (forward, backward)
  where
    t : ℕ
    t = total p.sites q.sites

    t' : ℕ
    t' = total q.sites p.sites

    opposite : (t + t') % 4 ≡ 0
    opposite = total_comm p.sites q.sites same

    same_sign :
        (m n : ℕ) (u v : Bool)
        → (m + n) % 4 ≡ 0
        → not (is_odd m) ≡ true
        → xor (xor (is_half m) u) v ≡ xor (xor (is_half n) v) u
    same_sign m n u v e even = ground arith

    even_of_same :
        (m n : ℕ) (u v : Bool)
        → (m + n) % 4 ≡ 0
        → xor (xor (is_half m) u) v ≡ xor (xor (is_half n) v) u
        → not (is_odd m) ≡ true
    even_of_same m n u v e eq = ground arith

    forward : is_commutative p q ≡ true → p ⊙ q ≡ q ⊙ p
    forward h =
        product_ext (sites-⊙ p q ∙ xor_sites_comm p.sites q.sites same ∙ sym (sites-⊙ q p)) (
          neg-⊙ p q
          ∙ same_sign t t' p.neg q.neg opposite (sym (is_commutative-total p q) ∙ h)
          ∙ sym (neg-⊙ q p))

    backward : p ⊙ q ≡ q ⊙ p → is_commutative p q ≡ true
    backward h =
        is_commutative-total p q
        ∙ even_of_same t t' p.neg q.neg opposite
            (sym (neg-⊙ p q) ∙ ap (λ (r : PauliProduct). r.neg) h ∙ neg-⊙ q p)
