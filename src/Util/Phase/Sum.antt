-- ===== src/Util/Phase/Sum.antt =====
-- The sum of two phases.
use qsyn.Prelude.{cancel, ℕ, ◌+◌, ◌*◌, ◌<◌, ◌≤◌, ◌≡◌, sym, ap, arith}
use qsyn.Prelude.Int.{ℤ, pos, negsuc, nat_abs, pos_part, neg_part, ◌+ℤ◌, ◌*ℤ◌, +ℤ_parts, *ℤ_parts}
use qsyn.Util.Rational
use qsyn.Util.Rational.{Rational, int_limit}
use qsyn.Util.Rational.Range.{IsInt, nat_abs_le, reduce-bounds}
use qsyn.Util.Rational.Reduce.{IsValue}
use qsyn.Util.Rational.Value.{reduce-IsValue_at}
use qsyn.Util.Phase.{Phase, add, normalize}
use qsyn.Util.Phase.Normal.{IsNormal, InRange, normalize_lem}

product_pos : (a b : ℕ) → 0 < a → 0 < b → 0 < a * b
product_pos a b h g = grind arith

-- The value of a sum over the product of the denominators.
abbrev sum_pos : Rational → Rational → ℕ
sum_pos p q = pos_part p.numerator * q.denominator + p.denominator * pos_part q.numerator

abbrev sum_neg : Rational → Rational → ℕ
sum_neg p q = neg_part p.numerator * q.denominator + p.denominator * neg_part q.numerator

same_value :
    (pr nr r d px nx p n : ℕ)
    → pr * d + nx * r ≡ nr * d + px * r
    → px + n ≡ nx + p
    → pr * d + n * r ≡ nr * d + p * r
same_value pr nr r d px nx p n e f = let m = ap (λ z. z * r) f in grind (arith, e, m)

-- From the value of a fraction over its own denominator to its value over another one.
other_value :
    (pr nr r ps ns ds p n d a b : ℕ)
    → 0 < ds
    → pr * ds + (ns + (b * 2) * ds) * r ≡ nr * ds + (ps + (a * 2) * ds) * r
    → ps * d + n * ds ≡ ns * d + p * ds
    → pr * d + (n + (b * 2) * d) * r ≡ nr * d + (p + (a * 2) * d) * r
other_value pr nr r ps ns ds p n d a b h e f =
    cancel ds (pr * d + (n + (b * 2) * d) * r) (nr * d + (p + (a * 2) * d) * r) h
      (let e' = ap (λ z. z * d) e in let f' = ap (λ z. z * r) f in grind (arith, e', f'))

-- Two fractions whose sum and its `normalize` stay in the range of int.
abbrev pub AddInRange : Rational → Rational → Type 0
AddInRange p q =
    nat_abs p.numerator * q.denominator
      + p.denominator * nat_abs q.numerator
      + (p.denominator * q.denominator) * 2
    < int_limit

abbrev cross_sum : Rational → Rational → ℤ
cross_sum p q = p.numerator *ℤ pos q.denominator +ℤ pos p.denominator *ℤ q.numerator

abs_parts :
    (px nx pa na pb nb P N Q M d e m n : ℕ)
    → pa + N * e ≡ na + P * e
    → pb + d * M ≡ nb + d * Q
    → px + na + nb ≡ nx + pa + pb
    → P + N ≡ m
    → Q + M ≡ n
    → (px ≤ nx + (m * e + d * n)) × (nx ≤ px + (m * e + d * n))
abs_parts px nx pa na pb nb P N Q M d e m n f g h i j =
    rw (sym i, sym j) (grind (arith, f, g, h), grind (arith, f, g, h))

parts-nat_abs : (x : ℤ) → pos_part x + neg_part x ≡ nat_abs x
parts-nat_abs (pos n) = omega arith
parts-nat_abs (negsuc n) = omega arith

module _ (p q : Rational) (range : AddInRange p q) where
  nat_abs-cross_sum :
      nat_abs (cross_sum p q)
      ≤ nat_abs p.numerator * q.denominator + p.denominator * nat_abs q.numerator
  nat_abs-cross_sum =
      let a = *ℤ_parts p.numerator (pos q.denominator) in
      let b = *ℤ_parts (pos p.denominator) q.numerator in
      let x = p.numerator *ℤ pos q.denominator in
      let y = pos p.denominator *ℤ q.numerator in
      let c = +ℤ_parts x y in
      let small =
        abs_parts (pos_part (cross_sum p q)) (neg_part (cross_sum p q)) (pos_part x) (neg_part x)
          (pos_part y) (neg_part y) (pos_part p.numerator) (neg_part p.numerator)
          (pos_part q.numerator) (neg_part q.numerator) p.denominator q.denominator
          (nat_abs p.numerator) (nat_abs q.numerator) (omega (arith, a)) (omega (arith, b))
          (omega (arith, c)) (parts-nat_abs p.numerator) (parts-nat_abs q.numerator) in
      nat_abs_le (cross_sum p q) _ small.0 small.1

  cross_sum-IsInt : IsInt (cross_sum p q)
  cross_sum-IsInt = omega (arith, nat_abs-cross_sum, range)

  sum-InRange : InRange (Rational.add p q)
  unfolding Rational.add
  sum-InRange = omega (
    arith,
    nat_abs-cross_sum,
    range,
    reduce-bounds (cross_sum p q) (p.denominator * q.denominator),
  )

add-IsValue :
    (p q : Rational)
    → 0 < p.denominator
    → 0 < q.denominator
    → AddInRange p q
    → IsValue (Rational.add p q) (sum_pos p q) (sum_neg p q) (p.denominator * q.denominator)
unfolding Rational.add
add-IsValue p q h g range =
    let x = p.numerator *ℤ pos q.denominator in
    let y = pos p.denominator *ℤ q.numerator in
    let d = p.denominator * q.denominator in
    let v =
      reduce-IsValue_at (x +ℤ y) d (product_pos p.denominator q.denominator h g)
        (cross_sum-IsInt p q range) (omega (arith, range)) in
    let a = *ℤ_parts p.numerator (pos q.denominator) in
    let b = *ℤ_parts (pos p.denominator) q.numerator in
    let c = +ℤ_parts x y in
    let r = Rational.add p q in
    (
      v.0,
      same_value (pos_part r.numerator) (neg_part r.numerator) r.denominator d (pos_part (x +ℤ y))
          (neg_part (x +ℤ y)) (sum_pos p q) (sum_neg p q) v.1 (grind (arith, a, b, c)),
    )

-- The sum of two phases with positive denominators, whose products, taken without their signs and added
-- up with twice the product of the denominators, are at most the largest int, is above -1 and up to 1, and is the sum of the
-- fractions and a whole number of turns.
pub add_lem :
    (p q : Phase)
    → 0 < p.rational.denominator
    → 0 < q.rational.denominator
    → AddInRange p.rational q.rational
    → let r = (add p q).rational in
      let d = p.rational.denominator * q.rational.denominator in
      IsNormal r
      × ((a b : ℕ) × IsValue r
            (sum_pos p.rational q.rational + (a * 2) * d)
            (sum_neg p.rational q.rational + (b * 2) * d)
            d)
unfolding add
add_lem p q h g range =
    let s = Rational.add p.rational q.rational in
    let v = add-IsValue p.rational q.rational h g range in
    let n = normalize_lem s v.0 (sum-InRange p.rational q.rational range) in
    let r = (normalize s).rational in
    (
      n.0,
      (
        n.1.0,
        n.1.1,
        (
          n.0.0,
          other_value (pos_part r.numerator) (neg_part r.numerator) r.denominator
              (pos_part s.numerator) (neg_part s.numerator) s.denominator
              (sum_pos p.rational q.rational) (sum_neg p.rational q.rational)
              (p.rational.denominator * q.rational.denominator) n.1.0 n.1.1 v.0 n.1.2.1 v.1,
        ),
      ),
    )
