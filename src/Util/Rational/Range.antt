-- ===== src/Util/Rational/Range.antt =====
-- The cast to int keeps what is in range, and `reduce` stays in range.
use qsyn.Prelude.{ℕ, zero, suc, ◌/◌, ◌+◌, ◌≤◌, ◌<◌, ◌≡◌, refl, arith, lt→ltb}
use qsyn.Prelude.Int.{ℤ, pos, negsuc, nat_abs, neg_ℤ, pos_part, neg_part, tdiv}
use qsyn.Util.Rational.{int_limit, to_int, reduce}

-- An int whose negation is one too.
abbrev pub IsInt : ℤ → Type 0
IsInt n = nat_abs n < int_limit

pub to_int_lem : (n : ℤ) → IsInt n → to_int n ≡ n
unfolding to_int
to_int_lem (pos n) h = rw (lt→ltb n int_limit h) refl
to_int_lem (negsuc n) h = rw (lt→ltb n int_limit (omega (arith, h))) refl

div_le : (n g : ℕ) → n / g ≤ n
div_le n zero = omega arith
div_le n (suc g) = grind arith

nat_abs-neg_ℤ : (k : ℕ) → nat_abs (neg_ℤ (pos k)) ≡ k
nat_abs-neg_ℤ zero = refl
nat_abs-neg_ℤ (suc k) = refl

-- Reducing makes neither part larger.
pub reduce-bounds :
    (n : ℤ) (m : ℕ)
    → (nat_abs (reduce n (pos m)).numerator ≤ nat_abs n) × ((reduce n (pos m)).denominator ≤ m)
unfolding reduce tdiv
reduce-bounds (pos a) m = (div_le a _, div_le m _)
reduce-bounds (negsuc a) m = (rw (nat_abs-neg_ℤ _) (div_le (suc a) _), div_le m _)

-- An integer between -k and k.
pub nat_abs_le :
    (x : ℤ) (k : ℕ) → pos_part x ≤ neg_part x + k → neg_part x ≤ pos_part x + k → nat_abs x ≤ k
nat_abs_le (pos n) k h g = omega (arith, h)
nat_abs_le (negsuc n) k h g = omega (arith, g)
