-- ===== src/Util/Phase.antt =====
-- src/util/phase.hpp: phases as multiples of pi, modulo 2 pi.
pub mod Equality
pub mod Normal
pub mod Sum
use qsyn.Prelude.{Bool, if◌then◌else◌}
use qsyn.Prelude.Int.{ℤ, pos, negsuc, is_negative, nat_abs, neg_ℤ, ◌-ℤ◌, ◌*ℤ◌, tdiv}
use qsyn.Util.Rational
use qsyn.Util.Rational.{Rational, rational, of_int, to_int}

pub record Phase : Type 0 where
  pub rational : Rational

-- The lambda of `normalize()`: C++ divides towards zero. `numerator()` and `denominator()` cast to int,
-- and the difference is one of ints.
unfoldable pub floor : Rational → ℤ
unfolding tdiv ◌-ℤ◌ Rational.to_int
floor q =
    let n = to_int q.numerator in
    let d = to_int (pos q.denominator) in
    tdiv (n -ℤ (if is_negative n then d else pos 0)) (nat_abs d)

unfoldable pub normalize : Rational → Phase
unfolding floor Rational.quotient Rational.sub Rational.less ◌*ℤ◌
normalize q =
    let q₁ = Rational.sub q (of_int (floor (Rational.quotient q (of_int (pos 2))) *ℤ pos 2)) in
    record {
      rational =
          if Rational.greater q₁ (of_int (pos 1)) then Rational.sub q₁ (of_int (pos 2)) else q₁;
    }

-- `Phase(n, d)` and `Phase(n)`.
unfoldable pub phase : ℤ → ℤ → Phase
unfolding normalize Rational.reduce
phase n d = normalize (rational n d)

unfoldable pub phase_of : ℤ → Phase
unfolding phase
phase_of n = phase n (pos 1)

unfoldable pub add : Phase → Phase → Phase
unfolding normalize Rational.add
add p q = normalize (Rational.add p.rational q.rational)

unfoldable pub sub : Phase → Phase → Phase
unfolding normalize Rational.sub
sub p q = normalize (Rational.sub p.rational q.rational)

-- `operator*=` by a rational number, which an integer is converted to.
unfoldable pub scale : Phase → Rational → Phase
unfolding normalize Rational.mul
scale p k = normalize (Rational.mul p.rational k)

unfoldable pub negated : Phase → Phase
unfolding phase
negated p = phase (neg_ℤ p.rational.numerator) (pos p.rational.denominator)

abbrev pub equal : Phase → Phase → Bool
equal p q = Rational.equal p.rational q.rational

abbrev pub minus_one : Rational
minus_one = of_int (negsuc 0)
