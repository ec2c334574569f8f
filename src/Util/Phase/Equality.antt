-- ===== src/Util/Phase/Equality.antt =====
-- `operator==` on phases decides equality.
use qsyn.Prelude.{◌≡◌, true, arith, ==_iff}
use qsyn.Prelude.Int.{eqb_ℤ_iff}
use qsyn.Util.Rational
use qsyn.Util.Rational.{Rational}
use qsyn.Util.Phase.{Phase, equal}

rational_eq : (p q : Rational) → Rational.equal p q ≡ true → p ≡ q
rational_eq p q h =
    let e : p.numerator ≡ q.numerator = eqb_ℤ_iff p.numerator q.numerator (ground (arith, h)) in
    let d : p.denominator ≡ q.denominator =
      (==_iff p.denominator q.denominator).0 (ground (arith, h)) in
    ground (arith, e, d)

pub phase_eq : (p q : Phase) → equal p q ≡ true → p ≡ q
phase_eq p q h = ground (arith, rational_eq p.rational q.rational h)
