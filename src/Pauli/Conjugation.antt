-- ===== src/Pauli/Conjugation.antt =====
-- The gates h, s and cx respect the product of Pauli products, signs included: each is an
-- automorphism, as a conjugation is.
pub mod Cx
use qsyn.Prelude.{
  ℕ, ◌+◌, ◌*◌, ◌%◌, ◌<◌, ◌≤◌, ◌≡◌, ◌∙◌, ap, ap₂, sym, refl, arith, Bool, xor, lt_cases, inl, inr,
  ◌≢◌, set, length,
}
use qsyn.Pauli.Product
use qsyn.Pauli.Product.{PauliProduct, Site, n_qubits, site, no_site, xor_site, xor_sites, ◌⊙◌}
use qsyn.Pauli.Gates.{h_site, s_site, is_y_site, h_inside, s_inside, h_outside, s_outside}
use qsyn.Pauli.Power.{
  site_power, total, is_half, neg-⊙, bit, is_half_shift, total-set, get_or-xor_sites, xor_sites-set,
  length-xor_sites,
}
use qsyn.Pauli.Local.{product_ext}

h_power :
    (a b : Site)
    → (site_power (h_site a) (h_site b) + 2 * bit (xor (is_y_site a) (is_y_site b))) % 4
      ≡ (site_power a b + 2 * bit (is_y_site (xor_site a b))) % 4
unfolding site_power
h_power a b = ground arith

s_power :
    (a b : Site)
    → (site_power (s_site a) (s_site b) + 2 * bit (xor (is_y_site a) (is_y_site b))) % 4
      ≡ (site_power a b + 2 * bit (is_y_site (xor_site a b))) % 4
unfolding site_power
s_power a b = ground arith

s-xor_site : (a b : Site) → xor_site (s_site a) (s_site b) ≡ s_site (xor_site a b)
s-xor_site a b = ground arith

pub site-⊙ :
    (p q : PauliProduct) (k : ℕ)
    → n_qubits p ≡ n_qubits q
    → site (p ⊙ q) k ≡ xor_site (site p k) (site q k)
unfolding ◌⊙◌
site-⊙ p q k same = get_or-xor_sites p.sites q.sites k same

pub sites-⊙ : (p q : PauliProduct) → (p ⊙ q).sites ≡ xor_sites p.sites q.sites
unfolding ◌⊙◌
sites-⊙ p q = refl

pub n_qubits-⊙ : (p q : PauliProduct) → n_qubits p ≡ n_qubits q → n_qubits (p ⊙ q) ≡ n_qubits p
unfolding ◌⊙◌
n_qubits-⊙ p q same = length-xor_sites p.sites q.sites same

-- Both signs of the factors and the flips of a gate, regrouped.
pub regroup : (t a p b q : Bool) → xor (xor t (xor a p)) (xor b q) ≡ xor (xor (xor (xor a b) t) p) q
regroup t a p b q = ground arith

pub regroup' : (v t p q : Bool) → xor v (xor (xor t p) q) ≡ xor (xor (xor v t) p) q
regroup' v t p q = ground arith

module _ (gate : PauliProduct → ℕ → PauliProduct) (g : Site → Site) (flip : Site → Bool)
    (inside : (p : PauliProduct) (k : ℕ)
      → k < n_qubits p
      → gate p k
        ≡ record { sites = set p.sites k (g (site p k)); neg = xor (flip (site p k)) p.neg })
    (outside : (p : PauliProduct) (k : ℕ) → n_qubits p ≤ k → gate p k ≡ p)
    (g-xor_site : (a b : Site) → xor_site (g a) (g b) ≡ g (xor_site a b))
    (g_power : (a b : Site)
      → (site_power (g a) (g b) + 2 * bit (xor (flip a) (flip b))) % 4
        ≡ (site_power a b + 2 * bit (flip (xor_site a b))) % 4) where
  module _ (p q : PauliProduct) (k : ℕ) (same : n_qubits p ≡ n_qubits q)
      (k_in : k < n_qubits p) where
    abbrev a : Site
    a = site p k

    abbrev b : Site
    b = site q k

    abbrev p' : PauliProduct
    p' = record { sites = set p.sites k (g a); neg = xor (flip a) p.neg }

    abbrev q' : PauliProduct
    q' = record { sites = set q.sites k (g b); neg = xor (flip b) q.neg }

    neg_one : (p' ⊙ q').neg ≡ xor (flip (site (p ⊙ q) k)) (p ⊙ q).neg
    neg_one =
        neg-⊙ p' q'
        ∙ regroup (is_half (total p'.sites q'.sites)) (flip a) p.neg (flip b) q.neg
        ∙ ap (λ t. xor (xor t p.neg) q.neg)
            (is_half_shift (total p.sites q.sites) (total p'.sites q'.sites) (site_power a b)
              (site_power (g a) (g b)) (xor (flip a) (flip b)) (flip (xor_site a b))
              (total-set p.sites q.sites k (g a) (g b) k_in (omega arith)) (g_power a b))
        ∙ sym (regroup' (flip (xor_site a b)) (is_half (total p.sites q.sites)) p.neg q.neg)
        ∙ ap₂ (λ s n. xor (flip s) n) (sym (site-⊙ p q k same)) (sym (neg-⊙ p q))

    sites_one : (p' ⊙ q').sites ≡ set (p ⊙ q).sites k (g (site (p ⊙ q) k))
    sites_one =
        sites-⊙ p' q'
        ∙ xor_sites-set p.sites q.sites k (g a) (g b) same
        ∙ ap₂ (λ l s. set l k s) (sym (sites-⊙ p q))
            (g-xor_site a b ∙ ap g (sym (site-⊙ p q k same)))

  gate-⊙ :
      (p q : PauliProduct) (k : ℕ) → n_qubits p ≡ n_qubits q → gate (p ⊙ q) k ≡ gate p k ⊙ gate q k
  gate-⊙ p q k same = elim (lt_cases k (n_qubits p)) [
    | inl k_in ↦
        inside (p ⊙ q) k (omega (arith, n_qubits-⊙ p q same))
        ∙ sym (
            ap₂ ◌⊙◌ (inside p k k_in) (inside q k (omega arith))
            ∙ product_ext (sites_one p q k same k_in) (neg_one p q k same k_in))
    | inr out ↦
        outside (p ⊙ q) k (omega (arith, n_qubits-⊙ p q same))
        ∙ sym (ap₂ ◌⊙◌ (outside p k out) (outside q k (omega arith)))
  ]

pub h-⊙ :
    (p q : PauliProduct) (k : ℕ)
    → n_qubits p ≡ n_qubits q
    → Product.h (p ⊙ q) k ≡ Product.h p k ⊙ Product.h q k
h-⊙ = gate-⊙ Product.h h_site is_y_site h_inside h_outside (λ a b. refl) h_power

pub s-⊙ :
    (p q : PauliProduct) (k : ℕ)
    → n_qubits p ≡ n_qubits q
    → Product.s (p ⊙ q) k ≡ Product.s p k ⊙ Product.s q k
s-⊙ = gate-⊙ Product.s s_site is_y_site s_inside s_outside s-xor_site s_power
