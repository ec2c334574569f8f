-- ===== src/Pauli/Power.antt =====
-- The sign of a product of Pauli products: what the `uint8_t` sum of `operator*=` decides, and how
-- it changes when single qubits do.
use qsyn.Prelude.{
  ℕ, zero, suc, ◌+◌, ◌*◌, ◌/◌, ◌%◌, ◌<◌, ◌≡◌, refl, ap, arith, Bool, true, false, xor, List, [],
  ◌∷◌, length, get_or, set, ◌==◌,
}
use qsyn.Pauli.Product.{
  PauliProduct, Site, no_site, pauli_of, power_of_i, power_sum, xor_site, xor_sites, ◌⊙◌,
}

-- The exponent of i that two sites contribute.
unfoldable pub site_power : Site → Site → ℕ
unfolding power_of_i
site_power a b = power_of_i (pauli_of a) (pauli_of b)

-- The sum without the wrap-around of its type.
unfoldable pub total : List Site → List Site → ℕ
total [] bs = 0
total (a ∷ as') [] = 0
total (a ∷ as') (b ∷ bs) = site_power a b + total as' bs

power_sum-total :
    (acc : ℕ) (as' bs : List Site) → power_sum acc as' bs % 256 ≡ (acc + total as' bs) % 256
unfolding power_sum total site_power
power_sum-total acc [] bs = omega arith
power_sum-total acc (a ∷ as') [] = omega arith
power_sum-total acc (a ∷ as') (b ∷ bs) =
    omega (arith, power_sum-total ((acc + power_of_i (pauli_of a) (pauli_of b)) % 256) as' bs)

-- Whether a power of i counts as -1: it is 2 or 3.
abbrev pub is_half : ℕ → Bool
is_half n = n % 4 / 2 == 1

-- The wrap-around at 256 does not change the sign, since 4 divides 256.
pub neg-⊙ :
    (p q : PauliProduct) → (p ⊙ q).neg ≡ xor (xor (is_half (total p.sites q.sites)) p.neg) q.neg
unfolding ◌⊙◌
neg-⊙ p q = ground (arith, power_sum-total 0 p.sites q.sites)

abbrev pub bit : Bool → ℕ
bit true = 1
bit false = 0

-- If the sum moves from m to m' by an exchange of k for k', the sign moves with it.
pub is_half_shift :
    (m m' k k' : ℕ) (u v : Bool)
    → m' + k ≡ m + k'
    → (k' + 2 * bit u) % 4 ≡ (k + 2 * bit v) % 4
    → xor u (is_half m') ≡ xor v (is_half m)
is_half_shift m m' k k' true true e f = ground arith
is_half_shift m m' k k' true false e f = ground arith
is_half_shift m m' k k' false true e f = ground arith
is_half_shift m m' k k' false false e f = ground arith

pub total-set :
    (xs ys : List Site) (i : ℕ) (a b : Site)
    → i < length xs
    → i < length ys
    → total (set xs i a) (set ys i b) + site_power (get_or xs i no_site) (get_or ys i no_site)
      ≡ total xs ys + site_power a b
unfolding total
total-set [] ys i a b h k = elim h [ ]
total-set (x ∷ xs) [] i a b h k = elim k [ ]
total-set (x ∷ xs) (y ∷ ys) zero a b h k = omega arith
total-set (x ∷ xs) (y ∷ ys) (suc i) a b h k =
    omega (arith, total-set xs ys i a b (omega arith) (omega arith))

pub get_or-xor_sites :
    (xs ys : List Site) (i : ℕ)
    → length xs ≡ length ys
    → get_or (xor_sites xs ys) i no_site ≡ xor_site (get_or xs i no_site) (get_or ys i no_site)
get_or-xor_sites [] [] i h = refl
get_or-xor_sites [] (y ∷ ys) i h = absurd (omega arith)
get_or-xor_sites (x ∷ xs) [] i h = absurd (omega arith)
get_or-xor_sites (x ∷ xs) (y ∷ ys) zero h = refl
get_or-xor_sites (x ∷ xs) (y ∷ ys) (suc i) h = get_or-xor_sites xs ys i (omega arith)

pub xor_sites-set :
    (xs ys : List Site) (i : ℕ) (a b : Site)
    → length xs ≡ length ys
    → xor_sites (set xs i a) (set ys i b) ≡ set (xor_sites xs ys) i (xor_site a b)
xor_sites-set [] [] i a b h = refl
xor_sites-set [] (y ∷ ys) i a b h = absurd (omega arith)
xor_sites-set (x ∷ xs) [] i a b h = absurd (omega arith)
xor_sites-set (x ∷ xs) (y ∷ ys) zero a b h = refl
xor_sites-set (x ∷ xs) (y ∷ ys) (suc i) a b h =
    ap (◌∷◌ (xor_site x y)) (xor_sites-set xs ys i a b (omega arith))

pub length-xor_sites :
    (xs ys : List Site) → length xs ≡ length ys → length (xor_sites xs ys) ≡ length xs
length-xor_sites [] ys h = refl
length-xor_sites (x ∷ xs) [] h = refl
length-xor_sites (x ∷ xs) (y ∷ ys) h = ap suc (length-xor_sites xs ys (omega arith))
