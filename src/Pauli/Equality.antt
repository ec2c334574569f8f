-- ===== src/Pauli/Equality.antt =====
-- src/tableau/pauli_rotation.hpp: the comparisons of Pauli products and rotations.
use qsyn.Prelude.{◌≡◌, refl, ap₂, Bool, true, false, ◌&&◌, beq, List, [], ◌∷◌, arith}
use qsyn.Pauli.Product.{Site, PauliProduct}
use qsyn.Pauli.Rotation.{PauliRotation}
use qsyn.Util.Phase

abbrev pub equal_site : Site → Site → Bool
equal_site a b = beq a.z_set b.z_set && beq a.x_set b.x_set

-- `_bitset == rhs._bitset`: products over registers of different sizes differ.
abbrev pub equal_sites : List Site → List Site → Bool
equal_sites [] [] = true
equal_sites [] (b ∷ bs) = false
equal_sites (a ∷ as') [] = false
equal_sites (a ∷ as') (b ∷ bs) = equal_site a b && equal_sites as' bs

unfoldable pub equal_product : PauliProduct → PauliProduct → Bool
equal_product p q = equal_sites p.sites q.sites && beq p.neg q.neg

unfoldable pub equal_rotation : PauliRotation → PauliRotation → Bool
unfolding equal_product
equal_rotation r u = equal_product r.product u.product && Phase.equal r.phase u.phase

-- `operator==` on vectors.
unfoldable pub equal_list {ℓ} : {A : Type ℓ} → (A → A → Bool) → List A → List A → Bool
equal_list eq [] [] = true
equal_list eq [] (y ∷ ys) = false
equal_list eq (x ∷ xs) [] = false
equal_list eq (x ∷ xs) (y ∷ ys) = eq x y && equal_list eq xs ys

equal_site-eq : (a b : Site) → equal_site a b ≡ true → a ≡ b
equal_site-eq a b h = ground (arith, h)

equal_sites-eq : (as' bs : List Site) → equal_sites as' bs ≡ true → as' ≡ bs
equal_sites-eq [] [] h = refl
equal_sites-eq [] (b ∷ bs) h = ground (arith, h)
equal_sites-eq (a ∷ as') [] h = ground (arith, h)
equal_sites-eq (a ∷ as') (b ∷ bs) h =
    ap₂ ◌∷◌ (equal_site-eq a b (ground (arith, h))) (equal_sites-eq as' bs (ground (arith, h)))

pub equal_product-eq : (p q : PauliProduct) → equal_product p q ≡ true → p ≡ q
unfolding equal_product
equal_product-eq p q h =
    let e : p.sites ≡ q.sites = equal_sites-eq p.sites q.sites (ground (arith, h)) in
    let d : p.neg ≡ q.neg = ground (arith, h) in ground (arith, e, d)
