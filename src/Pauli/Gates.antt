-- ===== src/Pauli/Gates.antt =====
-- `PauliProduct` as an implementation of `PauliProductTrait`, and what each gate writes.
use qsyn.Prelude.{
  ℕ, ◌<◌, ◌≤◌, ◌≡◌, ap, arith, set, xor, ◌&&◌, beq, ◌≢◌, Bool, ◌⊎◌, sym, get_or-set_self,
  get_or-set_ne, length-set, Bool-cases, leb, ◌||◌, inl, inr, if◌then◌else◌, refl, true, false,
}
use qsyn.Pauli.Product
use qsyn.Pauli.Product.{PauliProduct, Site, n_qubits, site}
use qsyn.Pauli.Trait.{PauliProductTrait}

instance abbrev pub pauli_product : PauliProductTrait PauliProduct
pauli_product = record { h = Product.h; s = Product.s; cx = Product.cx }

-- Past the last qubit the gates do nothing.
pub h_outside : (p : PauliProduct) (q : ℕ) → n_qubits p ≤ q → Product.h p q ≡ p
unfolding Product.h
h_outside p q out = ground arith

pub s_outside : (p : PauliProduct) (q : ℕ) → n_qubits p ≤ q → Product.s p q ≡ p
unfolding Product.s
s_outside p q out = ground arith

abbrev pub h_site : Site → Site
h_site a = record { z_set = a.x_set; x_set = a.z_set }

abbrev pub s_site : Site → Site
s_site a = record { z_set = xor a.z_set a.x_set; x_set = a.x_set }

abbrev pub is_y_site : Site → Bool
is_y_site a = a.z_set && a.x_set

swap_bits-h_site : (a : Site) → Product.swap_bits a ≡ h_site a
swap_bits-h_site a = ground arith

pub h_inside :
    (p : PauliProduct) (q : ℕ)
    → q < n_qubits p
    → Product.h p q
      ≡ record { sites = set p.sites q (h_site (site p q)); neg = xor (is_y_site (site p q)) p.neg }
unfolding Product.h
h_inside p q inside = ground (arith, ap (set p.sites q) (swap_bits-h_site (site p q)))

pub s_inside :
    (p : PauliProduct) (q : ℕ)
    → q < n_qubits p
    → Product.s p q
      ≡ record { sites = set p.sites q (s_site (site p q)); neg = xor (is_y_site (site p q)) p.neg }
unfolding Product.s
s_inside p q inside = ground arith

pub cx_outside :
    (p : PauliProduct) (c t : ℕ) → (n_qubits p ≤ c) ⊎ (n_qubits p ≤ t) → Product.cx p c t ≡ p
unfolding Product.cx
cx_outside p c t out = ground arith

abbrev pub cx_control : Site → Site → Site
cx_control a b = record { z_set = xor a.z_set b.z_set; x_set = a.x_set }

abbrev pub cx_target : Site → Site → Site
cx_target a b = record { z_set = b.z_set; x_set = xor b.x_set a.x_set }

abbrev pub cx_flip : Site → Site → Bool
cx_flip a b = a.x_set && b.z_set && beq b.x_set a.z_set

pub cx_inside :
    (p : PauliProduct) (c t : ℕ)
    → c < n_qubits p
    → t < n_qubits p
    → c ≢ t
    → Product.cx p c t ≡ record {
      sites =
          set
            (set p.sites t (cx_target (site p c) (site p t)))
            c
            (cx_control (site p c) (site p t));
      neg = xor (cx_flip (site p c) (site p t)) p.neg;
    }
unfolding Product.cx
cx_inside p c t c_in t_in c_t = ground (
  arith,
  get_or-set_self p.sites t (cx_target (site p c) (site p t)) Product.no_site t_in,
  get_or-set_ne p.sites t c (cx_target (site p c) (site p t)) Product.no_site (λ e. c_t (sym e)),
)

-- No gate changes the number of qubits.
pub n_qubits-h : (p : PauliProduct) (q : ℕ) → n_qubits (Product.h p q) ≡ n_qubits p
unfolding Product.h
n_qubits-h p q = ground (arith, length-set p.sites q (Product.swap_bits (site p q)))

pub n_qubits-s : (p : PauliProduct) (q : ℕ) → n_qubits (Product.s p q) ≡ n_qubits p
unfolding Product.s
n_qubits-s p q = ground (arith, length-set p.sites q (s_site (site p q)))

sites-negate_if :
    (b : Bool) (p : PauliProduct) → (if b then Product.negate p else p).sites ≡ p.sites
sites-negate_if true p = refl
sites-negate_if false p = refl

pub n_qubits-cx : (p : PauliProduct) (c t : ℕ) → n_qubits (Product.cx p c t) ≡ n_qubits p
unfolding Product.cx
n_qubits-cx p c t = elim (Bool-cases (leb (n_qubits p) c || leb (n_qubits p) t)) [
  | inl out ↦ rw out
  | inr inside ↦ rw inside (simp (length-set, sites-negate_if))
]
