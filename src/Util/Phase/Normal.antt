-- ===== src/Util/Phase/Normal.antt =====
-- `normalize` brings a phase into its range, and changes it by whole turns.
use qsyn.Prelude.{
  cancel_le, cancel_lt, mul_le, ℕ, suc, ◌+◌, ◌*◌, ◌/◌, ◌<◌, ◌≤◌, ◌≡◌, refl, subst, arith,
  if◌then◌else◌, true, false, inl, inr, ◌≢◌, lt_cases, if_ind, ◌⊎◌,
}
use qsyn.Prelude.Int.{
  nat_abs, *ℤ_parts, -ℤ_parts, ltb_ℤ, eq_of_parts, ℤ, pos, negsuc, pos_part, neg_part, ◌-ℤ◌, ◌*ℤ◌,
  tdiv, is_negative,
}
use qsyn.Util.Rational
use qsyn.Util.Rational.{Rational, reduce, of_int, int_limit}
use qsyn.Util.Rational.Range.{IsInt, to_int_lem, nat_abs_le, reduce-bounds}
use qsyn.Util.Rational.Reduce.{IsValue, neg_parts}
use qsyn.Util.Rational.Value.{
  reduce-unit_at, self-IsValue, sub-IsValue, half-IsValue, half-bounds, mul_one,
}
use qsyn.Util.Phase.{normalize, floor}

minus_zero : (a : ℤ) → a -ℤ pos 0 ≡ a
unfolding ◌-ℤ◌
minus_zero a = ground arith

minus_pos : (a d : ℕ) → negsuc a -ℤ pos d ≡ negsuc (a + d)
unfolding ◌-ℤ◌
minus_pos a d = ground arith

div_bounds : (x d : ℕ) → 0 < d → ((x / d) * d ≤ x) × (x < (x / d) * d + d)
div_bounds x d h = grind arith

-- The floor of a fraction of ints: f d <= n <= f d + d.
floor-bounds :
    (p : Rational)
    → 0 < p.denominator
    → IsInt p.numerator
    → p.denominator < int_limit
    → (pos_part (floor p) * p.denominator + neg_part p.numerator
        ≤ pos_part p.numerator + neg_part (floor p) * p.denominator)
      × (pos_part p.numerator + neg_part (floor p) * p.denominator
          ≤ neg_part p.numerator + pos_part (floor p) * p.denominator + p.denominator)
unfolding floor tdiv
floor-bounds p h hn hd =
    rw (to_int_lem p.numerator hn, to_int_lem (pos p.denominator) hd)
      (go p.numerator p.denominator h)
  where
    go :
        (n : ℤ) (d : ℕ)
        → 0 < d
        → let f = tdiv (n -ℤ (if is_negative n then pos d else pos 0)) d in
          (pos_part f * d + neg_part n ≤ pos_part n + neg_part f * d)
          × (pos_part n + neg_part f * d ≤ neg_part n + pos_part f * d + d)
    go (pos a) d h =
        let b = div_bounds a d h in rw (minus_zero (pos a)) (omega (arith, b), omega (arith, b))
    go (negsuc a) d h =
        let b = div_bounds (suc (a + d)) d h in
        let e = neg_parts (suc (a + d) / d) in
        rw (minus_pos a d, e.0, e.1) (omega (arith, b), omega (arith, b))

-- What is left of n / d after twice the floor f of its half, p / b, is between 0 and 2.
module _ (pn nn d pp np b pf nf : ℕ) (b_pos : 0 < b)
    (v : pp * (d * 2) + nn * b ≡ np * (d * 2) + pn * b) where
  left_low : pf * b + np ≤ pp + nf * b → nn + (pf * 2) * d ≤ pn + (nf * 2) * d
  left_low h =
      cancel_le b (nn + (pf * 2) * d) (pn + (nf * 2) * d) b_pos
        (let m = mul_le (pf * b + np) (pp + nf * b) (d * 2) h in grind (arith, m, v))

  left_high : pp + nf * b ≤ np + pf * b + b → pn + (nf * 2) * d ≤ nn + (pf * 2) * d + 2 * d
  left_high h =
      cancel_le b (pn + (nf * 2) * d) (nn + (pf * 2) * d + 2 * d) b_pos
        (let m = mul_le (pp + nf * b) (np + pf * b + b) (d * 2) h in grind (arith, m, v))

twice_parts :
    (f : ℤ) → (pos_part (f *ℤ pos 2) ≡ pos_part f * 2) × (neg_part (f *ℤ pos 2) ≡ neg_part f * 2)
unfolding ◌*ℤ◌
twice_parts f = ground arith

-- The first step of `normalize`: between 0 and 2.
abbrev turned : Rational → ℤ
turned q = floor (Rational.quotient q (of_int (pos 2))) *ℤ pos 2

-- The arithmetic of what is left, from the parts of the products.
remains :
    (px nx pa na pb nb pn nn d pt nt : ℕ)
    → pa + nn ≡ na + pn
    → pb + d * nt ≡ nb + d * pt
    → px + na + pb ≡ nx + pa + nb
    → nn + pt * d ≤ pn + nt * d
    → pn + nt * d ≤ nn + pt * d + 2 * d
    → (px ≤ nx + d * 2) × (nx ≤ px + d * 2)
remains px nx pa na pb nb pn nn d pt nt e f g low high =
    (grind (arith, e, f, g, low, high), grind (arith, e, f, g, low, high))

value_low : (p n r pv nv d : ℕ) → 0 < d → p * d + nv * r ≡ n * d + pv * r → nv ≤ pv → n ≤ p
value_low p n r pv nv d h e l = cancel_le d n p h (let m = mul_le nv pv r l in grind (arith, m, e))

value_high :
    (p n r pv nv d : ℕ) → 0 < d → p * d + nv * r ≡ n * d + pv * r → pv ≤ nv + 2 * d → p ≤ n + 2 * r
value_high p n r pv nv d h e l =
    cancel_le d p (n + 2 * r) h (let m = mul_le pv (nv + 2 * d) r l in grind (arith, m, e))

-- A fraction whose `normalize` stays in the range of int.
abbrev pub InRange : Rational → Type 0
InRange q = nat_abs q.numerator + q.denominator * 2 < int_limit

module _ (q : Rational) (h : 0 < q.denominator) (range : InRange q) where
  abbrev first : Rational
  first = Rational.sub q (of_int (turned q))

  -- What is left after the turns is between 0 and 2, over the denominator that it started with.
  left_range :
      let f = floor (Rational.quotient q (of_int (pos 2))) in
      (neg_part q.numerator + (pos_part f * 2) * q.denominator
        ≤ pos_part q.numerator + (neg_part f * 2) * q.denominator)
      × (pos_part q.numerator + (neg_part f * 2) * q.denominator
          ≤ neg_part q.numerator + (pos_part f * 2) * q.denominator + 2 * q.denominator)
  left_range =
      let p = Rational.quotient q (of_int (pos 2)) in
      let f = floor p in
      let small = half-bounds q in
      let b = half-IsValue q h (omega (arith, range)) (omega (arith, range)) in
      let bounds = floor-bounds p b.0 (omega (arith, range, small)) (omega (arith, range, small)) in
      let pn = pos_part q.numerator in
      let nn = neg_part q.numerator in
      let d = q.denominator in
      (
        left_low pn nn d (pos_part p.numerator) (neg_part p.numerator) p.denominator (pos_part f)
            (neg_part f) b.0 b.1 bounds.0,
        left_high pn nn d (pos_part p.numerator) (neg_part p.numerator) p.denominator (pos_part f)
            (neg_part f) b.0 b.1 bounds.1,
      )

  abbrev left : ℤ
  left = q.numerator *ℤ pos 1 -ℤ pos q.denominator *ℤ turned q

  nat_abs-left : nat_abs left ≤ q.denominator * 2
  nat_abs-left =
      let b = *ℤ_parts (pos q.denominator) (turned q) in
      let c = -ℤ_parts (q.numerator *ℤ pos 1) (pos q.denominator *ℤ turned q) in
      let a = *ℤ_parts q.numerator (pos 1) in
      let t = twice_parts (floor (Rational.quotient q (of_int (pos 2)))) in
      let small =
        remains (pos_part left) (neg_part left) (pos_part (q.numerator *ℤ pos 1))
          (neg_part (q.numerator *ℤ pos 1)) (pos_part (pos q.denominator *ℤ turned q))
          (neg_part (pos q.denominator *ℤ turned q)) (pos_part q.numerator) (neg_part q.numerator)
          q.denominator (pos_part (turned q)) (neg_part (turned q)) (omega (arith, a))
          (omega (arith, b)) (omega (arith, c)) (rw (t.0, t.1) left_range.0)
          (rw (t.0, t.1) left_range.1) in
      nat_abs_le left (q.denominator * 2) small.0 small.1

  first-IsInt : IsInt left
  first-IsInt = omega (arith, nat_abs-left, range)

  first-IsValue :
      let f = floor (Rational.quotient q (of_int (pos 2))) in
      IsValue first
        (pos_part q.numerator + (neg_part f * 2) * q.denominator)
        (neg_part q.numerator + (pos_part f * 2) * q.denominator)
        q.denominator
  first-IsValue =
      let f = floor (Rational.quotient q (of_int (pos 2))) in
      let v =
        sub-IsValue q (pos_part q.numerator) (neg_part q.numerator) q.denominator (turned q)
          first-IsInt (omega (arith, range)) (self-IsValue q h) in
      let t = twice_parts f in
      subst
        (λ a.
          IsValue first (pos_part q.numerator + (neg_part f * 2) * q.denominator)
            (neg_part q.numerator + a * q.denominator) q.denominator)
        t.0
        (subst
          (λ b.
            IsValue first (pos_part q.numerator + b * q.denominator)
              (neg_part q.numerator + pos_part (turned q) * q.denominator) q.denominator)
          t.1 v)

  first-denominator : first.denominator ≤ q.denominator
  unfolding Rational.sub
  first-denominator = omega (arith, (reduce-bounds left (q.denominator * 1)).1)

  first-range :
      (neg_part first.numerator ≤ pos_part first.numerator)
      × (pos_part first.numerator ≤ neg_part first.numerator + 2 * first.denominator)
  first-range = (
    value_low (pos_part first.numerator) (neg_part first.numerator) first.denominator _ _
        q.denominator h first-IsValue.1 left_range.0,
    value_high (pos_part first.numerator) (neg_part first.numerator) first.denominator _ _
        q.denominator h first-IsValue.1 left_range.1,
  )

  -- The second difference is in range too.
  second-IsInt : IsInt (first.numerator *ℤ pos 1 -ℤ pos first.denominator *ℤ pos 2)
  second-IsInt =
      let x = first.numerator *ℤ pos 1 -ℤ pos first.denominator *ℤ pos 2 in
      let a = *ℤ_parts first.numerator (pos 1) in
      let b = *ℤ_parts (pos first.denominator) (pos 2) in
      let c = -ℤ_parts (first.numerator *ℤ pos 1) (pos first.denominator *ℤ pos 2) in
      let small =
        nat_abs_le x (first.denominator * 2) (omega (arith, a, b, c, first-range))
          (omega (arith, a, b, c, first-range)) in
      omega (arith, small, first-denominator, range)

-- Taking a whole turn from a phase between 1 and 2.
module _ (p n r pn nn d : ℕ) (d_pos : 0 < d)
    (v : p * d + (nn + 2 * d) * r ≡ n * d + (pn + 0 * d) * r) where
  turn_pos : pn ≤ nn + 2 * d → p ≤ n
  turn_pos high =
      cancel_le d p n d_pos (let m = mul_le pn (nn + 2 * d) r high in grind (arith, m, v))

  turn_neg : 0 < r → nn + d < pn → n < p + r
  turn_neg r_pos low =
      cancel_lt d n (p + r)
        (let m = mul_le (nn + d + 1) pn r (omega (arith, low)) in grind (arith, m, v, r_pos))

less-one : (q : Rational) → Rational.less q (of_int (pos 1)) ≡ ltb_ℤ q.numerator (pos q.denominator)
unfolding Rational.less
less-one q = rw (mul_one q.numerator, mul_one (pos q.denominator)) refl

-- The second test of `normalize`.
greater-false :
    (q : Rational)
    → Rational.greater q (of_int (pos 1)) ≡ false
    → pos_part q.numerator ≤ neg_part q.numerator + q.denominator
greater-false q e = ground (arith, e, less-one q)

greater-true :
    (q : Rational)
    → Rational.greater q (of_int (pos 1)) ≡ true
    → neg_part q.numerator + q.denominator ≤ pos_part q.numerator
greater-true q e = ground (arith, e, less-one q)

greater-one :
    (q : Rational)
    → Rational.greater q (of_int (pos 1)) ≡ true
    → q.numerator ≡ pos q.denominator
    → q.denominator ≢ 1
greater-one q e u d = ground (arith, e, u, d)

one_part : (a : ℤ) → (pos_part a ≡ 0) ⊎ (neg_part a ≡ 0)
one_part (pos a) = inr refl
one_part (negsuc a) = inl refl

pos_of_parts : (a : ℤ) (d : ℕ) → neg_part a + d ≡ pos_part a → 0 < d → a ≡ pos d
pos_of_parts a d e h = eq_of_parts a (pos d) (omega (arith, e))

one_more :
    (r : Rational) (p n d b : ℕ)
    → IsValue r (p + 0 * d) ((n + (b * 2) * d) + 2 * d) d
    → IsValue r p (n + ((b + 1) * 2) * d) d
one_more r p n d b v = (v.0, grind (arith, v.1))

-- A positive denominator, and a value above -1 and up to 1.
abbrev pub IsNormal : Rational → Type 0
IsNormal r =
    (0 < r.denominator)
    × (neg_part r.numerator < r.denominator)
    × (pos_part r.numerator ≤ r.denominator)

-- The first fraction and a whole number of turns, of size 2, are the second.
abbrev pub Turns : Rational → Rational → Type 0
Turns q r =
    (a b : ℕ) × IsValue r (pos_part q.numerator + (a * 2) * q.denominator)
      (neg_part q.numerator + (b * 2) * q.denominator) q.denominator

module _ (q : Rational) (h : 0 < q.denominator) (range : InRange q) where
  strict :
      Rational.greater (first q h range) (of_int (pos 1)) ≡ true
      → neg_part (first q h range).numerator + (first q h range).denominator
        < pos_part (first q h range).numerator
  unfolding Rational.sub
  strict e =
      elim (lt_cases (neg_part (first q h range).numerator + (first q h range).denominator)
        (pos_part (first q h range).numerator)) [
          | inl l ↦ l
          | inr l ↦
              let r = first q h range in
              let u : r.numerator ≡ pos r.denominator =
                pos_of_parts r.numerator r.denominator (omega (arith, l, greater-true r e))
                  (first-IsValue q h range).0 in
              absurd (
                greater-one r e u (
                  reduce-unit_at _ (q.denominator * 1) (omega (arith, h)) (first-IsInt q h range)
                    (omega (arith, range)) u))
        ]

  low_case :
      Rational.greater (first q h range) (of_int (pos 1)) ≡ false
      → IsNormal (first q h range) × Turns q (first q h range)
  low_case e =
      let r = first q h range in
      let f = floor (Rational.quotient q (of_int (pos 2))) in
      let v = first-IsValue q h range in
      let turned_range = first-range q h range in
      let parts = one_part r.numerator in
      let g = greater-false r e in
      (
        (
          v.0,
          omega (arith, v.0, turned_range, parts, g),
          omega (arith, v.0, turned_range, parts, g),
        ),
        (neg_part f, pos_part f, v),
      )

  high_case :
      Rational.greater (first q h range) (of_int (pos 1)) ≡ true
      → let r = Rational.sub (first q h range) (of_int (pos 2)) in IsNormal r × Turns q r
  high_case e =
      let r₁ = first q h range in
      let r = Rational.sub r₁ (of_int (pos 2)) in
      let f = floor (Rational.quotient q (of_int (pos 2))) in
      let v₁ = first-IsValue q h range in
      let small : r₁.denominator < int_limit = omega (arith, first-denominator q h range, range) in
      let v =
        sub-IsValue r₁ (pos_part r₁.numerator) (neg_part r₁.numerator) r₁.denominator (pos 2)
          (second-IsInt q h range) small (self-IsValue r₁ v₁.0) in
      let less =
        turn_pos (pos_part r.numerator) (neg_part r.numerator) r.denominator (pos_part r₁.numerator)
          (neg_part r₁.numerator) r₁.denominator v₁.0 v.1 (first-range q h range).1 in
      let more =
        turn_neg (pos_part r.numerator) (neg_part r.numerator) r.denominator (pos_part r₁.numerator)
          (neg_part r₁.numerator) r₁.denominator v₁.0 v.1 v.0 (strict e) in
      let parts = one_part r.numerator in
      (
        (v.0, omega (arith, v.0, less, more, parts), omega (arith, v.0, less, more, parts)),
        (
          neg_part f,
          pos_part f + 1,
          one_more r (pos_part q.numerator + (neg_part f * 2) * q.denominator)
              (neg_part q.numerator) q.denominator (pos_part f)
              (sub-IsValue r₁ _ _ q.denominator (pos 2) (second-IsInt q h range) small v₁),
        ),
      )

-- `normalize` brings a fraction whose numerator and twice whose denominator add up to at most the largest
-- int above -1 and up to 1, and changes it by a whole number of turns.
pub normalize_lem :
    (q : Rational)
    → 0 < q.denominator
    → InRange q
    → IsNormal (normalize q).rational × Turns q (normalize q).rational
unfolding normalize
normalize_lem q h range =
    if_ind (λ r. IsNormal r × Turns q r) (Rational.greater (first q h range) (of_int (pos 1)))
      (high_case q h range) (low_case q h range)
