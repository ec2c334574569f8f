-- ===== src/Pauli/Matrix/Cx.antt =====
-- The update rule of cx against the matrix of the gate.
use qsyn.Prelude.{
  ℕ, ◌+◌, ◌*◌, ◌%◌, ◌<◌, ◌≡◌, ◌∙◌, ap, ap₂, sym, arith, Bool, false, xor, List, length, set, ◌≢◌,
  length-set, get_or-set_ne, set-get_or,
}
use qsyn.Pauli.Product
use qsyn.Pauli.Product.{PauliProduct, Site, n_qubits, site, no_site}
use qsyn.Pauli.Power.{bit}
use qsyn.Pauli.Gates.{cx_control, cx_target, cx_flip, cx_inside}
use qsyn.Pauli.Matrix.{
  Basis, exponent, sum_exponent, act, act_sites, site_exponent, site_act, sum_exponent-set,
  act_sites-set, get_or-act_sites,
}
use qsyn.Pauli.Matrix.Gates.{qubit}

-- CX on a basis state: the target is flipped where the control is 1.
abbrev pub cnot : Basis → ℕ → ℕ → Basis
cnot b c t = set b t (xor (qubit b t) (qubit b c))

cnot_both : (b : Basis) (c t : ℕ) (v : Bool) → t ≢ c → set (set b t v) c (qubit b c) ≡ set b t v
cnot_both b c t v t_c =
    ap (set (set b t v) c) (sym (get_or-set_ne b t c v false t_c)) ∙ set-get_or (set b t v) c false

cx_phase :
    (e e' : ℕ) (a b : Site) (v w u : Bool)
    → e' + (site_exponent a v + site_exponent b w)
      ≡ e + (site_exponent (cx_control a b) v + site_exponent (cx_target a b) (xor w v))
    → (2 * bit u + e) % 4 ≡ (2 * bit (xor (cx_flip a b) u) + e') % 4
cx_phase e e' a b v w u h = ground arith

module _ (p : PauliProduct) (c t : ℕ) (b : Basis) (c_in : c < n_qubits p) (t_in : t < n_qubits p)
    (c_t : c ≢ t) (fits : length b ≡ n_qubits p) where
  abbrev pc : Site
  pc = site p c

  abbrev pt : Site
  pt = site p t

  abbrev w : Bool
  w = xor (qubit b t) (qubit b c)

  t_c : t ≢ c
  t_c = λ e. c_t (sym e)

  -- The sites after the gate.
  abbrev after : List Site
  after = set (set p.sites t (cx_target pc pt)) c (cx_control pc pt)

  moved : act_sites after (cnot b c t) ≡ cnot (act_sites p.sites b) c t
  moved =
      ap (act_sites after) (sym (cnot_both b c t w t_c))
      ∙ act_sites-set (set p.sites t (cx_target pc pt)) (set b t w) c (cx_control pc pt) (qubit b c)
      ∙ ap₂ (λ l v. set l c v) (act_sites-set p.sites b t (cx_target pc pt) w)
          (sym (get_or-act_sites p.sites b c c_in (omega arith)))
      ∙ cnot_both (act_sites p.sites b) c t (site_act (cx_target pc pt) w) t_c
      ∙ ap (set (act_sites p.sites b) t) (
          target pc pt (qubit b t) (qubit b c)
          ∙ sym (
              ap₂ xor (get_or-act_sites p.sites b t t_in (omega arith))
                (get_or-act_sites p.sites b c c_in (omega arith))))
    where
      target :
          (a d : Site) (x y : Bool)
          → site_act (cx_target a d) (xor x y) ≡ xor (site_act d x) (site_act a y)
      target a d x y = ground arith

  changed :
      sum_exponent after (cnot b c t)
        + (site_exponent pc (qubit b c) + site_exponent pt (qubit b t))
      ≡ sum_exponent p.sites b
        + (site_exponent (cx_control pc pt) (qubit b c) + site_exponent (cx_target pc pt) w)
  changed = omega (
    arith,
    sum_exponent-set p.sites b t (cx_target pc pt) w t_in (omega arith),
    rw
        (
          cnot_both b c t w t_c,
          get_or-set_ne p.sites t c (cx_target pc pt) no_site t_c,
          get_or-set_ne b t c w false t_c,
        )
        at
        (sum_exponent-set (set p.sites t (cx_target pc pt)) (set b t w) c (cx_control pc pt)
          (qubit b c) (omega (arith, length-set p.sites t (cx_target pc pt)))
          (omega (arith, length-set b t w))),
  )

-- For two different qubits of the product, with P' for `cx p c t`, CX P = P' CX: on every basis state both sides lead to the same state with
-- the same power of i.
pub cx-matrix :
    (p : PauliProduct) (c t : ℕ) (b : Basis)
    → c < n_qubits p
    → t < n_qubits p
    → c ≢ t
    → length b ≡ n_qubits p
    → (act (Product.cx p c t) (cnot b c t) ≡ cnot (act p b) c t)
      × (exponent p b % 4 ≡ exponent (Product.cx p c t) (cnot b c t) % 4)
unfolding act exponent
cx-matrix p c t b c_in t_in c_t fits = rw (cx_inside p c t c_in t_in c_t) (
  moved p c t b c_in t_in c_t fits,
  cx_phase (sum_exponent p.sites b) (sum_exponent (after p c t b c_in t_in c_t fits) (cnot b c t))
      (site p c) (site p t) (qubit b c) (qubit b t) p.neg (changed p c t b c_in t_in c_t fits),
)
