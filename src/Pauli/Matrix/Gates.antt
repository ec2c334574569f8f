-- ===== src/Pauli/Matrix/Gates.antt =====
-- The update rules of h, s and cx against the matrices of the gates: each rule gives the Pauli
-- product P' with U P = P' U.
use qsyn.Prelude.{
  ℕ, ◌+◌, ◌*◌, ◌%◌, ◌<◌, ◌≡◌, ◌∙◌, ap, ap₂, sym, arith, Bool, false, xor, ◌&&◌, length, set, get_or,
  set-get_or,
}
use qsyn.Pauli.Product
use qsyn.Pauli.Product.{PauliProduct, Site, n_qubits, site, no_site, is_z_set}
use qsyn.Pauli.Power.{bit}
use qsyn.Pauli.Gates.{h_site, s_site, is_y_site, h_inside, s_inside}
use qsyn.Pauli.Matrix.{
  Basis, exponent, sum_exponent, act, act_sites, site_exponent, site_act, sum_exponent-set,
  act_sites-set, get_or-act_sites,
}

abbrev pub qubit : Basis → ℕ → Bool
qubit b k = get_or b k false

s_phase :
    (e e' : ℕ) (a : Site) (v u : Bool)
    → e' + site_exponent a v ≡ e + site_exponent (s_site a) v
    → (2 * bit u + e + bit (site_act a v)) % 4 ≡ (2 * bit (xor (is_y_site a) u) + e' + bit v) % 4
s_phase e e' a v u h = ground arith

-- For a qubit k of the product: S on k gives the factor i where its bit is 1. With P' for `s p k`, S P = P' S: on every
-- basis state both sides lead to the same state with the same power of i.
pub s-matrix :
    (p : PauliProduct) (k : ℕ) (b : Basis)
    → k < n_qubits p
    → length b ≡ n_qubits p
    → (act (Product.s p k) b ≡ act p b)
      × ((exponent p b + bit (qubit (act p b) k)) % 4
          ≡ (exponent (Product.s p k) b + bit (qubit b k)) % 4)
unfolding act exponent
s-matrix p k b k_in fits = rw (s_inside p k k_in) (moved, phased)
  where
    a : Site
    a = site p k

    v : Bool
    v = qubit b k

    same_b : set b k v ≡ b
    same_b = set-get_or b k false

    moved : act_sites (set p.sites k (s_site a)) b ≡ act_sites p.sites b
    moved =
        ap (act_sites (set p.sites k (s_site a))) (sym same_b)
        ∙ act_sites-set p.sites b k (s_site a) v
        ∙ sym (act_sites-set p.sites b k a v)
        ∙ ap₂ act_sites (set-get_or p.sites k no_site) same_b

    changed :
        sum_exponent (set p.sites k (s_site a)) b + site_exponent a v
        ≡ sum_exponent p.sites b + site_exponent (s_site a) v
    changed = rw same_b at (sum_exponent-set p.sites b k (s_site a) v k_in (omega arith))

    phased :
        (2 * bit p.neg + sum_exponent p.sites b + bit (qubit (act_sites p.sites b) k)) % 4
        ≡ (2 * bit (xor (is_y_site a) p.neg) + sum_exponent (set p.sites k (s_site a)) b + bit v)
          % 4
    phased = rw (get_or-act_sites p.sites b k k_in (omega arith)) (
        s_phase (sum_exponent p.sites b) (sum_exponent (set p.sites k (s_site a)) b) a v p.neg
          changed)

h_phase :
    (e e' : ℕ) (a : Site) (v w u : Bool)
    → e' + site_exponent a v ≡ e + site_exponent (h_site a) (xor w a.z_set)
    → (2 * bit u + e + 2 * bit (w && site_act a v)) % 4
      ≡ (2 * bit (xor (is_y_site a) u) + e' + 2 * bit (xor w a.z_set && v)) % 4
h_phase e e' a v w u h = ground arith

-- For a qubit k of the product: H on k sends the bit v to both bits w, with the sign -1 where v and w are 1. With P' for
-- `h p k`, H P = P' H: the entry of H P from the state b to a state with bit w at k, and the one
-- entry of P' H that ends in the same state, are the same power of i.
pub h-matrix :
    (p : PauliProduct) (k : ℕ) (b : Basis) (w : Bool)
    → k < n_qubits p
    → length b ≡ n_qubits p
    → (act (Product.h p k) (set b k (xor w (is_z_set p k))) ≡ set (act p b) k w)
      × ((exponent p b + 2 * bit (w && qubit (act p b) k)) % 4
          ≡ (exponent (Product.h p k) (set b k (xor w (is_z_set p k)))
              + 2 * bit (xor w (is_z_set p k) && qubit b k))
            % 4)
unfolding act exponent
h-matrix p k b w k_in fits = rw (h_inside p k k_in) (moved, phased)
  where
    a : Site
    a = site p k

    u : Bool
    u = xor w a.z_set

    back : (a : Site) (w : Bool) → site_act (h_site a) (xor w a.z_set) ≡ w
    back a w = ground arith

    moved : act_sites (set p.sites k (h_site a)) (set b k u) ≡ set (act_sites p.sites b) k w
    moved = act_sites-set p.sites b k (h_site a) u ∙ ap (set (act_sites p.sites b) k) (back a w)

    phased :
        (2 * bit p.neg + sum_exponent p.sites b + 2 * bit (w && qubit (act_sites p.sites b) k)) % 4
        ≡ (2 * bit (xor (is_y_site a) p.neg)
            + sum_exponent (set p.sites k (h_site a)) (set b k u)
            + 2 * bit (u && qubit b k))
          % 4
    phased = rw (get_or-act_sites p.sites b k k_in (omega arith)) (
        h_phase (sum_exponent p.sites b) (sum_exponent (set p.sites k (h_site a)) (set b k u)) a
          (qubit b k) w p.neg (sum_exponent-set p.sites b k (h_site a) u k_in (omega arith)))
