-- ===== src/Pauli/Local.antt =====
-- Each gate acts on two places of a product and leaves the others alone: a gate on the whole
-- product is the same gate on the two sites and the sign, put back in their places.
use qsyn.Prelude.{
  ℕ, zero, suc, ◌<◌, ◌≡◌, ◌∙◌, sym, ap, refl, arith, set, xor, ◌≢◌, Bool, length-set,
  get_or-set_self, get_or-set_ne, set-set_self, set-set_comm, set-get_or,
}
use qsyn.Pauli.Product
use qsyn.Pauli.Product.{PauliProduct, Site, n_qubits, site, no_site}
use qsyn.Pauli.Trait.{PauliProductTrait}
use qsyn.Pauli.Gates.{
  pauli_product, h_site, s_site, is_y_site, cx_control, cx_target, cx_flip, h_inside, s_inside,
  cx_inside,
}

-- Two sites and the sign.
pub record Two : Type 0 where
  pub first : Site
  pub second : Site
  pub sign : Bool

abbrev pub two_h : Two → ℕ → Two
two_h w zero = record w { first = h_site w.first; sign = xor (is_y_site w.first) w.sign }
two_h w (suc _) = record w { second = h_site w.second; sign = xor (is_y_site w.second) w.sign }

abbrev pub two_s : Two → ℕ → Two
two_s w zero = record w { first = s_site w.first; sign = xor (is_y_site w.first) w.sign }
two_s w (suc _) = record w { second = s_site w.second; sign = xor (is_y_site w.second) w.sign }

abbrev pub two_cx : Two → ℕ → ℕ → Two
two_cx w zero _ = record {
  first = cx_control w.first w.second;
  second = cx_target w.first w.second;
  sign = xor (cx_flip w.first w.second) w.sign;
}
two_cx w (suc _) _ = record {
  first = cx_target w.second w.first;
  second = cx_control w.second w.first;
  sign = xor (cx_flip w.second w.first) w.sign;
}

instance abbrev pub two : PauliProductTrait Two
two = record { h = two_h; s = two_s; cx = two_cx }

abbrev pub extract : PauliProduct → ℕ → ℕ → Two
extract p c t = record { first = site p c; second = site p t; sign = p.neg }

abbrev pub embed : PauliProduct → ℕ → ℕ → Two → PauliProduct
embed p c t w = record { sites = set (set p.sites c w.first) t w.second; neg = w.sign }

abbrev pub product_ext : {p q : PauliProduct} → p.sites ≡ q.sites → p.neg ≡ q.neg → p ≡ q
product_ext e f = λ i. record { sites = e i; neg = f i }

pub embed-extract : (p : PauliProduct) (c t : ℕ) → embed p c t (extract p c t) ≡ p
embed-extract p c t =
    product_ext
      (ap (λ l. set l t (site p t)) (set-get_or p.sites c no_site) ∙ set-get_or p.sites t no_site)
      refl

module _ (p : PauliProduct) (c t : ℕ) (c_t : c ≢ t) where
  pub n_qubits-embed : (w : Two) → n_qubits (embed p c t w) ≡ n_qubits p
  n_qubits-embed w = length-set (set p.sites c w.first) t w.second ∙ length-set p.sites c w.first

  first-embed : (w : Two) → c < n_qubits p → site (embed p c t w) c ≡ w.first
  first-embed w inside =
      get_or-set_ne (set p.sites c w.first) t c w.second no_site (λ e. c_t (sym e))
      ∙ get_or-set_self p.sites c w.first no_site inside

  second-embed : (w : Two) → t < n_qubits p → site (embed p c t w) t ≡ w.second
  second-embed w inside =
      get_or-set_self (set p.sites c w.first) t w.second no_site
        (omega (arith, length-set p.sites c w.first))

  set-first :
      (w : Two) (a : Site) → set (embed p c t w).sites c a ≡ set (set p.sites c a) t w.second
  set-first w a =
      set-set_comm (set p.sites c w.first) t c w.second a (λ e. c_t (sym e))
      ∙ ap (λ l. set l t w.second) (set-set_self p.sites c w.first a)

  set-second :
      (w : Two) (b : Site) → set (embed p c t w).sites t b ≡ set (set p.sites c w.first) t b
  set-second w b = set-set_self (set p.sites c w.first) t w.second b

  set_both :
      (w : Two) (a b : Site) → set (set (embed p c t w).sites t b) c a ≡ set (set p.sites c a) t b
  set_both w a b =
      ap (λ l. set l c a) (set-second w b)
      ∙ set-set_comm (set p.sites c w.first) t c b a (λ e. c_t (sym e))
      ∙ ap (λ l. set l t b) (set-set_self p.sites c w.first a)

  set_both' :
      (w : Two) (a b : Site) → set (set (embed p c t w).sites c a) t b ≡ set (set p.sites c a) t b
  set_both' w a b =
      ap (λ l. set l t b) (set-first w a) ∙ set-set_self (set p.sites c a) t w.second b

  module _ (c_in : c < n_qubits p) where
    inside₀ : (w : Two) → c < n_qubits (embed p c t w)
    inside₀ w = omega (arith, n_qubits-embed w)

    pub h-embed₀ : (w : Two) → Product.h (embed p c t w) c ≡ embed p c t (two_h w 0)
    h-embed₀ w =
        h_inside (embed p c t w) c (inside₀ w)
        ∙ rw (first-embed w c_in) (product_ext (set-first w (h_site w.first)) refl)

    pub s-embed₀ : (w : Two) → Product.s (embed p c t w) c ≡ embed p c t (two_s w 0)
    s-embed₀ w =
        s_inside (embed p c t w) c (inside₀ w)
        ∙ rw (first-embed w c_in) (product_ext (set-first w (s_site w.first)) refl)

    module _ (t_in : t < n_qubits p) where
      inside₁ : (w : Two) → t < n_qubits (embed p c t w)
      inside₁ w = omega (arith, n_qubits-embed w)

      pub h-embed₁ : (w : Two) → Product.h (embed p c t w) t ≡ embed p c t (two_h w 1)
      h-embed₁ w =
          h_inside (embed p c t w) t (inside₁ w)
          ∙ rw (second-embed w t_in) (product_ext (set-second w (h_site w.second)) refl)

      pub s-embed₁ : (w : Two) → Product.s (embed p c t w) t ≡ embed p c t (two_s w 1)
      s-embed₁ w =
          s_inside (embed p c t w) t (inside₁ w)
          ∙ rw (second-embed w t_in) (product_ext (set-second w (s_site w.second)) refl)

      pub cx-embed₀ : (w : Two) → Product.cx (embed p c t w) c t ≡ embed p c t (two_cx w 0 1)
      cx-embed₀ w =
          cx_inside (embed p c t w) c t (inside₀ w) (inside₁ w) c_t
          ∙ rw (first-embed w c_in, second-embed w t_in)
              (product_ext (set_both w (cx_control w.first w.second) (cx_target w.first w.second))
                refl)

      pub cx-embed₁ : (w : Two) → Product.cx (embed p c t w) t c ≡ embed p c t (two_cx w 1 0)
      cx-embed₁ w =
          cx_inside (embed p c t w) t c (inside₁ w) (inside₀ w) (λ e. c_t (sym e))
          ∙ rw (first-embed w c_in, second-embed w t_in)
              (product_ext (set_both' w (cx_target w.second w.first) (cx_control w.second w.first))
                refl)
