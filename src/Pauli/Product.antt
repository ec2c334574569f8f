-- ===== src/Pauli/Product.antt =====
-- src/tableau/pauli_rotation.{hpp,cpp}: `Pauli`, `power_of_i` and `PauliProduct`.
-- The source packs a product into one bitset: the z bits, the x bits and the sign, at the places
-- `_z_idx`, `_x_idx` and `_r_idx`. Here the two bits of a qubit stand together.
use qsyn.Prelude.{
  ℕ, ◌+◌, ◌/◌, ◌%◌, Bool, true, false, not, ◌&&◌, ◌||◌, xor, beq, List, [], ◌∷◌, length, get_or,
  set, leb, ◌==◌, if◌then◌else◌,
}

-- `enum class Pauli`.
pub data Pauli : Type 0 where
  i x y z : Pauli

-- `power_of_i(a, b)`: the exponent of i in the product of two Pauli matrices.
unfoldable pub power_of_i : Pauli → Pauli → ℕ
power_of_i x y = 1
power_of_i y z = 1
power_of_i z x = 1
power_of_i x z = 3
power_of_i z y = 3
power_of_i y x = 3
power_of_i _ _ = 0

-- The bits of one qubit.
pub record Site : Type 0 where
  pub z_set : Bool
  pub x_set : Bool

pub record PauliProduct : Type 0 where
  pub sites : List Site
  pub neg : Bool

abbrev pub no_site : Site
no_site = record { z_set = false; x_set = false }

abbrev pub n_qubits : PauliProduct → ℕ
n_qubits p = length p.sites

-- A read past the end, which the source leaves undefined, gives a cleared bit.
abbrev pub site : PauliProduct → ℕ → Site
site p q = get_or p.sites q no_site

abbrev pub is_z_set : PauliProduct → ℕ → Bool
is_z_set p q = (site p q).z_set

abbrev pub is_x_set : PauliProduct → ℕ → Bool
is_x_set p q = (site p q).x_set

abbrev pub pauli_of : Site → Pauli
pauli_of s =
    if s.z_set
    then (if s.x_set then Pauli.y else Pauli.z)
    else (if s.x_set then Pauli.x else Pauli.i)

abbrev pub get_pauli_type : PauliProduct → ℕ → Pauli
get_pauli_type p q = pauli_of (site p q)

abbrev pub is_i : PauliProduct → ℕ → Bool
is_i p q = not (is_z_set p q) && not (is_x_set p q)

abbrev pub is_x : PauliProduct → ℕ → Bool
is_x p q = not (is_z_set p q) && is_x_set p q

abbrev pub is_y : PauliProduct → ℕ → Bool
is_y p q = is_z_set p q && is_x_set p q

abbrev pub is_z : PauliProduct → ℕ → Bool
is_z p q = is_z_set p q && not (is_x_set p q)

abbrev pub is_neg : PauliProduct → Bool
is_neg p = p.neg

-- `_bitset.flip(_r_idx())`.
abbrev pub negate : PauliProduct → PauliProduct
negate p = record p { neg = not p.neg }

-- The assignments `_bitset[_z_idx(q)] = b` and `_bitset[_x_idx(q)] = b`.
abbrev pub set_z : PauliProduct → ℕ → Bool → PauliProduct
set_z p q b = record p { sites = set p.sites q (record { z_set = b; x_set = is_x_set p q }) }

abbrev pub set_x : PauliProduct → ℕ → Bool → PauliProduct
set_x p q b = record p { sites = set p.sites q (record { z_set = is_z_set p q; x_set = b }) }

unfoldable pub set_pauli_type : PauliProduct → ℕ → Pauli → PauliProduct
set_pauli_type p q Pauli.i = set_x (set_z p q false) q false
set_pauli_type p q Pauli.x = set_x (set_z p q false) q true
set_pauli_type p q Pauli.y = set_x (set_z p q true) q true
set_pauli_type p q Pauli.z = set_x (set_z p q true) q false

-- The loop of `operator*=` over a `uint8_t`.
unfoldable pub power_sum : ℕ → List Site → List Site → ℕ
unfolding power_of_i
power_sum acc [] bs = acc
power_sum acc (a ∷ as') [] = acc
power_sum acc (a ∷ as') (b ∷ bs) =
    power_sum ((acc + power_of_i (pauli_of a) (pauli_of b)) % 256) as' bs

abbrev pub xor_site : Site → Site → Site
xor_site a b = record { z_set = xor a.z_set b.z_set; x_set = xor a.x_set b.x_set }

-- `_bitset ^= rhs._bitset`, on the bits of the qubits. Lengths are equal by the source's assertion.
abbrev pub xor_sites : List Site → List Site → List Site
xor_sites [] bs = []
xor_sites (a ∷ as') [] = a ∷ as'
xor_sites (a ∷ as') (b ∷ bs) = xor_site a b ∷ xor_sites as' bs

-- `operator*`, by `operator*=`.
infixl 70 ◌⊙◌
unfoldable pub ◌⊙◌ : PauliProduct → PauliProduct → PauliProduct
unfolding power_sum
p ⊙ q =
    let power = power_sum 0 p.sites q.sites in
    let flipped = if power % 4 / 2 == 1 then not p.neg else p.neg in
    record { sites = xor_sites p.sites q.sites; neg = xor flipped q.neg }

-- `bitset_swap_two(_z_idx(q), _x_idx(q), _bitset)`: three exclusive ors on the bits of a qubit.
abbrev pub swap_bits : Site → Site
swap_bits a₀ =
    let a₁ : Site = record { z_set = xor a₀.z_set a₀.x_set; x_set = a₀.x_set } in
    let a₂ : Site = record { z_set = a₁.z_set; x_set = xor a₁.x_set a₁.z_set } in
    record { z_set = xor a₂.z_set a₂.x_set; x_set = a₂.x_set }

abbrev pub swap_zx : PauliProduct → ℕ → PauliProduct
swap_zx p q = record p { sites = set p.sites q (swap_bits (site p q)) }

unfoldable pub h : PauliProduct → ℕ → PauliProduct
h p q = if leb (n_qubits p) q then p else swap_zx (if is_y p q then negate p else p) q

unfoldable pub s : PauliProduct → ℕ → PauliProduct
s p q =
    if leb (n_qubits p) q
    then p
    else let p₁ = if is_y p q then negate p else p in
      set_z p₁ q (xor (is_z_set p₁ q) (is_x_set p₁ q))

unfoldable pub cx : PauliProduct → ℕ → ℕ → PauliProduct
cx p c t =
    if leb (n_qubits p) c || leb (n_qubits p) t
    then p
    else let p₁ =
        if is_x_set p c && is_z_set p t && beq (is_x_set p t) (is_z_set p c) then negate p else p in
      let p₂ = set_x p₁ t (xor (is_x_set p₁ t) (is_x_set p₁ c)) in
      set_z p₂ c (xor (is_z_set p₂ c) (is_z_set p₂ t))

-- The loop of `is_commutative`.
unfoldable pub commutes_from : Bool → List Site → List Site → Bool
commutes_from acc [] bs = acc
commutes_from acc (a ∷ as') [] = acc
commutes_from acc (a ∷ as') (b ∷ bs) =
    commutes_from (xor acc (xor (a.z_set && b.x_set) (a.x_set && b.z_set))) as' bs

unfoldable pub is_commutative : PauliProduct → PauliProduct → Bool
unfolding commutes_from
is_commutative p q = commutes_from true p.sites q.sites

-- `is_diagonal` and `is_identity`, over the qubits from the first.
abbrev pub all_sites : (Site → Bool) → List Site → Bool
all_sites f [] = true
all_sites f (a ∷ as') = f a && all_sites f as'

unfoldable pub is_diagonal : PauliProduct → Bool
is_diagonal p = all_sites (λ a. (not a.z_set && not a.x_set) || (a.z_set && not a.x_set)) p.sites

unfoldable pub is_identity : PauliProduct → Bool
is_identity p = all_sites (λ a. not a.z_set && not a.x_set) p.sites
