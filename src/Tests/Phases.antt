-- ===== src/Tests/Phases.antt =====
-- Phases at concrete inputs.
use qsyn.Prelude.{ℕ, ◌+◌, ◌*◌, ◌≡◌, refl, arith}
use qsyn.Prelude.Int.{pos, negsuc}
use qsyn.Util.Rational.{Rational}
use qsyn.Util.Phase
use qsyn.Util.Phase.{Phase, phase, minus_one, scale, normalize, add}
use qsyn.Util.Phase.Normal.{IsNormal, Turns, normalize_lem}
use qsyn.Util.Phase.Sum.{add_lem}
use qsyn.Util.Rational.Reduce.{IsValue}

-- 7/2 is -1/2 modulo 2, and -1 is 1.
seven_halves :
    phase (pos 7) (pos 2) ≡ record { rational = record { numerator = negsuc 0; denominator = 2 } }
unfolding phase
seven_halves = refl

minus_four :
    phase (negsuc 3) (pos 1) ≡ record { rational = record { numerator = pos 0; denominator = 1 } }
unfolding phase
minus_four = refl

minus_pi : scale (phase (pos 1) (pos 1)) minus_one ≡ phase (pos 1) (pos 1)
unfolding phase scale
minus_pi = refl

five_sixths : Phase.add (phase (pos 1) (pos 2)) (phase (pos 1) (pos 3)) ≡ phase (pos 5) (pos 6)
unfolding phase Phase.add
five_sixths = refl

abbrev seven_over_two : Rational
seven_over_two = record { numerator = pos 7; denominator = 2 }

abbrev three_quarters : Phase
three_quarters = record { rational = record { numerator = pos 3; denominator = 4 } }

normalize_lem_example :
    IsNormal (normalize seven_over_two).rational
    × Turns seven_over_two (normalize seven_over_two).rational
normalize_lem_example = normalize_lem seven_over_two (omega arith) (omega arith)

add_lem_example :
    let r = (add three_quarters three_quarters).rational in
    IsNormal r × ((a b : ℕ) × IsValue r (24 + (a * 2) * 16) (0 + (b * 2) * 16) 16)
add_lem_example = add_lem three_quarters three_quarters (omega arith) (omega arith) (omega arith)
