-- ===== src/Util/Rational/Value.antt =====
-- The value of a difference with an integer, and of a half.
use qsyn.Prelude.{cancel, ℕ, zero, suc, ◌+◌, ◌*◌, ◌<◌, ◌≤◌, ◌≡◌, ap, arith}
use qsyn.Prelude.Int.{ℤ, pos, nat_abs, pos_part, neg_part, ◌-ℤ◌, ◌*ℤ◌, -ℤ_parts, *ℤ_parts}
use qsyn.Util.Rational
use qsyn.Util.Rational.{Rational, reduce, of_int, int_limit}
use qsyn.Util.Rational.Range.{IsInt, reduce-bounds}
use qsyn.Util.Rational.Reduce.{reduce-unit, IsValue, reduce-IsValue}

pub reduce-IsValue_at :
    (n : ℤ) (d : ℕ)
    → 0 < d
    → IsInt n
    → d < int_limit
    → IsValue (reduce n (pos d)) (pos_part n) (neg_part n) d
reduce-IsValue_at n zero h hn hd = elim h [ ]
reduce-IsValue_at n (suc m) h hn hd = reduce-IsValue n m hn hd

-- The arithmetic of a difference of fractions: R / r is X / q, X is n - q e, and n / q is (P - N) / d.
difference :
    (q r d pR nR pX nX pn nn P N pe ne : ℕ)
    → 0 < q
    → pR * q + nX * r ≡ nR * q + pX * r
    → pX + nn + q * pe ≡ nX + pn + q * ne
    → pn * d + N * q ≡ nn * d + P * q
    → pR * d + (N + pe * d) * r ≡ nR * d + (P + ne * d) * r
difference q r d pR nR pX nX pn nn P N pe ne h e₁ e₂ e₃ =
    cancel q (pR * d + (N + pe * d) * r) (nR * d + (P + ne * d) * r) h (
      let f₁ = ap (λ x. x * d) e₁ in
      let f₂ = ap (λ x. x * (d * r)) e₂ in let f₃ = ap (λ x. x * r) e₃ in grind (arith, f₁, f₂, f₃))

pub mul_one : (a : ℤ) → a *ℤ pos 1 ≡ a
unfolding ◌*ℤ◌
mul_one a = ground arith

twice : (n : ℕ) → pos n *ℤ pos 2 ≡ pos (n * 2)
unfolding ◌*ℤ◌
twice n = ground arith

-- Taking an integer from a fraction, where the difference is in range.
pub sub-IsValue :
    (r : Rational) (p n d : ℕ) (e : ℤ)
    → IsInt (r.numerator *ℤ pos 1 -ℤ pos r.denominator *ℤ e)
    → r.denominator < int_limit
    → IsValue r p n d
    → IsValue (Rational.sub r (of_int e)) (p + neg_part e * d) (n + pos_part e * d) d
unfolding Rational.sub
sub-IsValue r p n d e hx hr h =
    let x = r.numerator *ℤ pos 1 -ℤ pos r.denominator *ℤ e in
    let v = reduce-IsValue_at x (r.denominator * 1) (omega (arith, h.0)) hx (omega (arith, hr)) in
    let a = *ℤ_parts r.numerator (pos 1) in
    let b = *ℤ_parts (pos r.denominator) e in
    let c = -ℤ_parts (r.numerator *ℤ pos 1) (pos r.denominator *ℤ e) in
    let s = reduce x (pos (r.denominator * 1)) in
    (
      v.0,
      difference r.denominator s.denominator d (pos_part s.numerator) (neg_part s.numerator)
          (pos_part x) (neg_part x) (pos_part r.numerator) (neg_part r.numerator) p n (pos_part e)
          (neg_part e) h.0 (grind (arith, v.1)) (grind (arith, a, b, c)) h.1,
    )

-- Half of a fraction.
pub half-IsValue :
    (q : Rational)
    → 0 < q.denominator
    → IsInt q.numerator
    → q.denominator * 2 < int_limit
    → IsValue
        (Rational.quotient q (of_int (pos 2)))
        (pos_part q.numerator)
        (neg_part q.numerator)
        (q.denominator * 2)
unfolding Rational.quotient
half-IsValue q h hn hd =
    rw (mul_one q.numerator, twice q.denominator)
      (reduce-IsValue_at q.numerator (q.denominator * 2) (omega (arith, h)) hn hd)

-- Its parts are no larger.
pub half-bounds :
    (q : Rational)
    → (nat_abs (Rational.quotient q (of_int (pos 2))).numerator ≤ nat_abs q.numerator)
      × ((Rational.quotient q (of_int (pos 2))).denominator ≤ q.denominator * 2)
unfolding Rational.quotient
half-bounds q =
    rw (mul_one q.numerator, twice q.denominator) (reduce-bounds q.numerator (q.denominator * 2))

pub self-IsValue :
    (q : Rational)
    → 0 < q.denominator
    → IsValue q (pos_part q.numerator) (neg_part q.numerator) q.denominator
self-IsValue q h = (h, omega arith)

pub reduce-unit_at :
    (x : ℤ) (d : ℕ)
    → 0 < d
    → IsInt x
    → d < int_limit
    → (reduce x (pos d)).numerator ≡ pos (reduce x (pos d)).denominator
    → (reduce x (pos d)).denominator ≡ 1
reduce-unit_at x zero h hx hd e = elim h [ ]
reduce-unit_at x (suc m) h hx hd e = reduce-unit x m hx hd e
