-- ===== src/Pauli/Matrix.antt =====
-- What a Pauli product stands for: a matrix with one entry in each column, a power of i. On the
-- basis state `b` it gives i to the `exponent`, times the basis state `act`.
pub mod Product
pub mod Gates
pub mod Cx
use qsyn.Prelude.{
  ℕ, zero, suc, ◌+◌, ◌*◌, ◌%◌, ◌<◌, ◌≡◌, refl, ap, arith, Bool, false, xor, ◌&&◌, List, [], ◌∷◌,
  length, get_or, set,
}
use qsyn.Pauli.Product.{PauliProduct, Site, no_site}
use qsyn.Pauli.Power.{bit}

abbrev pub Basis : Type 0
Basis = List Bool

-- I, X, Y and Z on a basis state of one qubit: Y|0⟩ = i|1⟩ and Y|1⟩ = i³|0⟩.
abbrev pub site_exponent : Site → Bool → ℕ
site_exponent a b = bit (a.z_set && a.x_set) + 2 * bit (a.z_set && b)

abbrev pub site_act : Site → Bool → Bool
site_act a b = xor a.x_set b

unfoldable pub sum_exponent : List Site → Basis → ℕ
sum_exponent [] bs = 0
sum_exponent (a ∷ as') [] = 0
sum_exponent (a ∷ as') (b ∷ bs) = site_exponent a b + sum_exponent as' bs

unfoldable pub exponent : PauliProduct → Basis → ℕ
exponent p b = 2 * bit p.neg + sum_exponent p.sites b

abbrev pub act_sites : List Site → Basis → Basis
act_sites [] bs = []
act_sites (a ∷ as') [] = []
act_sites (a ∷ as') (b ∷ bs) = site_act a b ∷ act_sites as' bs

unfoldable pub act : PauliProduct → Basis → Basis
act p b = act_sites p.sites b

pub sum_exponent-set :
    (xs : List Site) (bs : Basis) (i : ℕ) (a : Site) (b : Bool)
    → i < length xs
    → i < length bs
    → sum_exponent (set xs i a) (set bs i b)
        + site_exponent (get_or xs i no_site) (get_or bs i false)
      ≡ sum_exponent xs bs + site_exponent a b
unfolding sum_exponent
sum_exponent-set [] bs i a b h k = elim h [ ]
sum_exponent-set (x ∷ xs) [] i a b h k = elim k [ ]
sum_exponent-set (x ∷ xs) (y ∷ ys) zero a b h k = omega arith
sum_exponent-set (x ∷ xs) (y ∷ ys) (suc i) a b h k =
    omega (arith, sum_exponent-set xs ys i a b (omega arith) (omega arith))

pub act_sites-set :
    (xs : List Site) (bs : Basis) (i : ℕ) (a : Site) (b : Bool)
    → act_sites (set xs i a) (set bs i b) ≡ set (act_sites xs bs) i (site_act a b)
act_sites-set [] bs i a b = refl
act_sites-set (x ∷ xs) [] zero a b = refl
act_sites-set (x ∷ xs) [] (suc i) a b = refl
act_sites-set (x ∷ xs) (y ∷ ys) zero a b = refl
act_sites-set (x ∷ xs) (y ∷ ys) (suc i) a b = ap (◌∷◌ (site_act x y)) (act_sites-set xs ys i a b)

pub get_or-act_sites :
    (xs : List Site) (bs : Basis) (i : ℕ)
    → i < length xs
    → i < length bs
    → get_or (act_sites xs bs) i false ≡ site_act (get_or xs i no_site) (get_or bs i false)
get_or-act_sites [] bs i h k = elim h [ ]
get_or-act_sites (x ∷ xs) [] i h k = elim k [ ]
get_or-act_sites (x ∷ xs) (y ∷ ys) zero h k = refl
get_or-act_sites (x ∷ xs) (y ∷ ys) (suc i) h k =
    get_or-act_sites xs ys i (omega arith) (omega arith)
