-- ===== src/Util/Rational.antt =====
-- src/util/rational.{hpp,cpp}: fractions in lowest terms. The source keeps numerator and denominator
-- in doubles that hold integers; here they are an integer and a number. `IntegralType` is int: where the
-- source casts to it, `to_int` stands.
pub mod Range
pub mod Reduce
pub mod Value
use qsyn.Prelude.{
  ℕ, zero, suc, ◌+◌, ◌-◌, ◌*◌, ◌^◌, ltb, ◌/◌, ◌%◌, ◌<◌, Bool, not, ◌&&◌, ◌||◌, ◌==◌, Option, none,
  some, if◌then◌else◌, arith,
}
use qsyn.Prelude.Int.{
  ℤ, pos, negsuc, nat_abs, is_negative, neg_ℤ, ◌+ℤ◌, ◌-ℤ◌, ◌*ℤ◌, tdiv, ltb_ℤ, eqb_ℤ,
}
use mathlib.Core.WellFounded.{Acc}

-- `std::gcd`, by Euclid's algorithm.
all_Acc : (k n : ℕ) → n < k → Acc ◌<◌ n
all_Acc zero n h = elim h [ ]
all_Acc (suc k) n h = Acc.intro n (λ m below. all_Acc k m (omega arith))

pub remainder_lt : (a b : ℕ) → a % suc b < suc b
remainder_lt a b = omega arith

gcd_on : (a b : ℕ) → Acc ◌<◌ b → ℕ
gcd_on a b (Acc.intro zero next) = a
gcd_on a b (Acc.intro (suc c) next) =
    gcd_on (suc c) (a % suc c) (next (a % suc c) (remainder_lt a c))

pub next_lt : (b : ℕ) → b < suc b
next_lt b = omega arith

unfoldable pub gcd : ℕ → ℕ → ℕ
unfolding gcd_on all_Acc
gcd a b = gcd_on a b (all_Acc (suc b) b (next_lt b))

pub record Rational : Type 0 where
  pub numerator : ℤ
  pub denominator : ℕ

-- The integers up to 2^31 - 1 in absolute value are exact in an int.
abbrev pub int_limit : ℕ
int_limit = 2 ^ 31

-- `static_cast<IntegralType>` from a double. C++ leaves it undefined out of range, where x86-64 gives the
-- least integer.
unfoldable pub to_int : ℤ → ℤ
to_int (pos n) = if ltb n int_limit then pos n else negsuc (int_limit - 1)
to_int (negsuc n) = if ltb n int_limit then negsuc n else negsuc (int_limit - 1)

-- `reduce()` on a numerator and a denominator of any sign.
unfoldable pub reduce : ℤ → ℤ → Rational
unfolding gcd tdiv to_int
reduce n d =
    let n₁ = if is_negative d then neg_ℤ n else n in
    let g = gcd (nat_abs (to_int n₁)) (nat_abs (to_int (pos (nat_abs d)))) in
    record { numerator = tdiv n₁ g; denominator = nat_abs d / g }

-- The constructor from two integers, and the one from an integer.
abbrev pub rational : ℤ → ℤ → Rational
rational n d = reduce n d

abbrev pub of_int : ℤ → Rational
of_int n = record { numerator = n; denominator = 1 }

unfoldable pub add : Rational → Rational → Rational
unfolding reduce ◌+ℤ◌ ◌*ℤ◌
add p q =
    reduce (p.numerator *ℤ pos q.denominator +ℤ pos p.denominator *ℤ q.numerator)
      (pos (p.denominator * q.denominator))

unfoldable pub sub : Rational → Rational → Rational
unfolding reduce ◌-ℤ◌ ◌*ℤ◌
sub p q =
    reduce (p.numerator *ℤ pos q.denominator -ℤ pos p.denominator *ℤ q.numerator)
      (pos (p.denominator * q.denominator))

unfoldable pub mul : Rational → Rational → Rational
unfolding reduce ◌*ℤ◌
mul p q = reduce (p.numerator *ℤ q.numerator) (pos (p.denominator * q.denominator))

-- `operator/=` past its guard, and with it: dividing by zero throws.
unfoldable pub quotient : Rational → Rational → Rational
unfolding reduce ◌*ℤ◌
quotient p q = reduce (p.numerator *ℤ pos q.denominator) (pos p.denominator *ℤ q.numerator)

unfoldable pub div : Rational → Rational → Option Rational
unfolding quotient
div p q = if nat_abs q.numerator == 0 then none else some (quotient p q)

unfoldable pub negated : Rational → Rational
unfolding reduce
negated p = rational (neg_ℤ p.numerator) (pos p.denominator)

abbrev pub equal : Rational → Rational → Bool
equal p q = eqb_ℤ p.numerator q.numerator && (p.denominator == q.denominator)

unfoldable pub less : Rational → Rational → Bool
unfolding ◌*ℤ◌
less p q = ltb_ℤ (p.numerator *ℤ pos q.denominator) (pos p.denominator *ℤ q.numerator)

abbrev pub less_equal : Rational → Rational → Bool
less_equal p q = equal p q || less p q

abbrev pub greater : Rational → Rational → Bool
greater p q = not (equal p q) && not (less p q)

abbrev pub greater_equal : Rational → Rational → Bool
greater_equal p q = not (less p q)

-- `_mediant`.
unfoldable pub mediant : Rational → Rational → Rational
unfolding reduce ◌+ℤ◌
mediant p q = rational (p.numerator +ℤ q.numerator) (pos (p.denominator + q.denominator))
