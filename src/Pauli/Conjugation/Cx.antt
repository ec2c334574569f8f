-- ===== src/Pauli/Conjugation/Cx.antt =====
-- The gate cx and the product of Pauli products.
use qsyn.Prelude.{
  ℕ, ◌+◌, ◌*◌, ◌%◌, ◌<◌, ◌≤◌, ◌⊎◌, ◌≡◌, ◌∙◌, ap, ap₂, sym, arith, xor, lt_cases, inl, inr, ◌≢◌, set,
  get_or-set_ne, length-set,
}
use qsyn.Pauli.Product
use qsyn.Pauli.Product.{PauliProduct, Site, n_qubits, site, no_site, xor_site, ◌⊙◌}
use qsyn.Pauli.Gates.{cx_control, cx_target, cx_flip, cx_inside, cx_outside}
use qsyn.Pauli.Power.{
  site_power, total, is_half, neg-⊙, bit, is_half_shift, total-set, xor_sites-set,
}
use qsyn.Pauli.Local.{product_ext}
use qsyn.Pauli.Conjugation.{site-⊙, sites-⊙, n_qubits-⊙, regroup, regroup'}

cx_power :
    (a b c d : Site)
    → (site_power (cx_control a b) (cx_control c d)
          + site_power (cx_target a b) (cx_target c d)
          + 2 * bit (xor (cx_flip a b) (cx_flip c d)))
        % 4
      ≡ (site_power a c + site_power b d + 2 * bit (cx_flip (xor_site a c) (xor_site b d))) % 4
unfolding site_power
cx_power a b c d = ground arith

cx_target-xor_site :
    (a b c d : Site)
    → xor_site (cx_target a b) (cx_target c d) ≡ cx_target (xor_site a c) (xor_site b d)
cx_target-xor_site a b c d = ground arith

cx_control-xor_site :
    (a b c d : Site)
    → xor_site (cx_control a b) (cx_control c d) ≡ cx_control (xor_site a c) (xor_site b d)
cx_control-xor_site a b c d = ground arith

module _ (p q : PauliProduct) (c t : ℕ) (same : n_qubits p ≡ n_qubits q) (c_in : c < n_qubits p)
    (t_in : t < n_qubits p) (c_t : c ≢ t) where
  abbrev pc : Site
  pc = site p c

  abbrev pt : Site
  pt = site p t

  abbrev qc : Site
  qc = site q c

  abbrev qt : Site
  qt = site q t

  -- The two products after the gate.
  abbrev p' : PauliProduct
  p' = record {
    sites = set (set p.sites t (cx_target pc pt)) c (cx_control pc pt);
    neg = xor (cx_flip pc pt) p.neg;
  }

  abbrev q' : PauliProduct
  q' = record {
    sites = set (set q.sites t (cx_target qc qt)) c (cx_control qc qt);
    neg = xor (cx_flip qc qt) q.neg;
  }

  total_both :
      total p'.sites q'.sites + (site_power pc qc + site_power pt qt)
      ≡ total p.sites q.sites
        + (site_power (cx_control pc pt) (cx_control qc qt)
            + site_power (cx_target pc pt) (cx_target qc qt))
  total_both = omega (
    arith,
    total-set p.sites q.sites t (cx_target pc pt) (cx_target qc qt) t_in (omega arith),
    rw
        (
          get_or-set_ne p.sites t c (cx_target pc pt) no_site (λ e. c_t (sym e)),
          get_or-set_ne q.sites t c (cx_target qc qt) no_site (λ e. c_t (sym e)),
        )
        at
        (total-set (set p.sites t (cx_target pc pt)) (set q.sites t (cx_target qc qt)) c
          (cx_control pc pt) (cx_control qc qt)
          (omega (arith, length-set p.sites t (cx_target pc pt)))
          (omega (arith, length-set q.sites t (cx_target qc qt)))),
  )

  neg_both : (p' ⊙ q').neg ≡ xor (cx_flip (site (p ⊙ q) c) (site (p ⊙ q) t)) (p ⊙ q).neg
  neg_both =
      neg-⊙ p' q'
      ∙ regroup (is_half (total p'.sites q'.sites)) (cx_flip pc pt) p.neg (cx_flip qc qt) q.neg
      ∙ ap (λ m. xor (xor m p.neg) q.neg)
          (is_half_shift (total p.sites q.sites) (total p'.sites q'.sites)
            (site_power pc qc + site_power pt qt)
            (site_power (cx_control pc pt) (cx_control qc qt)
              + site_power (cx_target pc pt) (cx_target qc qt))
            (xor (cx_flip pc pt) (cx_flip qc qt)) (cx_flip (xor_site pc qc) (xor_site pt qt))
            total_both (cx_power pc pt qc qt))
      ∙ sym (
          regroup' (cx_flip (xor_site pc qc) (xor_site pt qt)) (is_half (total p.sites q.sites))
            p.neg q.neg)
      ∙ ap₂ (λ s n. xor s n) (ap₂ cx_flip (sym (site-⊙ p q c same)) (sym (site-⊙ p q t same)))
          (sym (neg-⊙ p q))

  sites_both :
      (p' ⊙ q').sites
      ≡ set
          (set (p ⊙ q).sites t (cx_target (site (p ⊙ q) c) (site (p ⊙ q) t)))
          c
          (cx_control (site (p ⊙ q) c) (site (p ⊙ q) t))
  sites_both =
      sites-⊙ p' q'
      ∙ xor_sites-set (set p.sites t (cx_target pc pt)) (set q.sites t (cx_target qc qt)) c
          (cx_control pc pt) (cx_control qc qt)
          (length-set p.sites t (cx_target pc pt)
            ∙ same
            ∙ sym (length-set q.sites t (cx_target qc qt)))
      ∙ ap₂ (λ l s. set l c s)
          (xor_sites-set p.sites q.sites t (cx_target pc pt) (cx_target qc qt) same)
          (cx_control-xor_site pc pt qc qt)
      ∙ rw (cx_target-xor_site pc pt qc qt, site-⊙ p q c same, site-⊙ p q t same, sites-⊙ p q)

  cx-⊙_inside : Product.cx (p ⊙ q) c t ≡ Product.cx p c t ⊙ Product.cx q c t
  cx-⊙_inside =
      cx_inside (p ⊙ q) c t (omega (arith, n_qubits-⊙ p q same))
        (omega (arith, n_qubits-⊙ p q same)) c_t
      ∙ sym (
          ap₂ ◌⊙◌ (cx_inside p c t c_in t_in c_t) (cx_inside q c t (omega arith) (omega arith) c_t)
          ∙ product_ext sites_both neg_both)

pub cx-⊙ :
    (p q : PauliProduct) (c t : ℕ)
    → n_qubits p ≡ n_qubits q
    → c ≢ t
    → Product.cx (p ⊙ q) c t ≡ Product.cx p c t ⊙ Product.cx q c t
cx-⊙ p q c t same c_t = elim (lt_cases c (n_qubits p)) [
  | inl c_in ↦ elim (lt_cases t (n_qubits p)) [
    | inl t_in ↦ cx-⊙_inside p q c t same c_in t_in c_t
    | inr t_out ↦ outside (inr t_out)
  ]
  | inr c_out ↦ outside (inl c_out)
]
  where
    outside :
        (n_qubits p ≤ c) ⊎ (n_qubits p ≤ t)
        → Product.cx (p ⊙ q) c t ≡ Product.cx p c t ⊙ Product.cx q c t
    outside out =
        cx_outside (p ⊙ q) c t (omega (arith, n_qubits-⊙ p q same))
        ∙ sym (ap₂ ◌⊙◌ (cx_outside p c t out) (cx_outside q c t (omega arith)))
