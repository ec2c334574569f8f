-- ===== src/Util/Rational/Reduce.antt =====
-- `reduce` keeps the value of a fraction and makes its denominator positive.
use qsyn.Prelude.{
  cancel, ℕ, zero, suc, ◌+◌, ◌*◌, ◌/◌, ◌%◌, ◌<◌, ◌≡◌, refl, sym, ap, subst, ◌∙◌, arith,
}
use qsyn.Prelude.Int.{ℤ, pos, negsuc, pos_part, neg_part, neg_ℤ, tdiv, eq_of_parts}
use mathlib.Core.WellFounded.{Acc}
use qsyn.Util.Rational.Range.{IsInt, to_int_lem}
use qsyn.Util.Rational.{int_limit, gcd, gcd_on, all_Acc, next_lt, remainder_lt, reduce, Rational}

-- Divisibility with its factor.
abbrev Divides : ℕ → ℕ → Type 0
Divides d n = (k : ℕ) × (n ≡ k * d)

Divides-sum : (d m n q : ℕ) → Divides d m → Divides d n → Divides d (q * m + n)
Divides-sum d m n q (k, e) (l, f) = (q * k + l, ground (arith, e, f))

div_mod_sum : (a c : ℕ) → a ≡ (a / suc c) * suc c + a % suc c
div_mod_sum a c = omega arith

gcd_on-Divides : (a b : ℕ) (w : Acc ◌<◌ b) → Divides (gcd_on a b w) a × Divides (gcd_on a b w) b
unfolding gcd_on
gcd_on-Divides a b (Acc.intro zero next) = ((1, omega arith), (0, omega arith))
gcd_on-Divides a b (Acc.intro (suc c) next) =
    let below = gcd_on-Divides (suc c) (a % suc c) (next (a % suc c) (remainder_lt a c)) in
    (
      subst (Divides (gcd_on (suc c) (a % suc c) (next (a % suc c) (remainder_lt a c))))
          (sym (div_mod_sum a c)) (Divides-sum _ (suc c) (a % suc c) (a / suc c) below.0 below.1),
      below.0,
    )

gcd-Divides : (a b : ℕ) → Divides (gcd a b) a × Divides (gcd a b) b
unfolding gcd
gcd-Divides a b = gcd_on-Divides a b (all_Acc (suc b) b (next_lt b))

quotient_unique : (x g : ℕ) → 0 < g → (x * g) / g ≡ x
quotient_unique x g h = grind arith

factor_pos : (d k l : ℕ) → suc l ≡ k * d → (0 < k) × (0 < d)
factor_pos zero k l e = grind arith
factor_pos (suc d) zero l e = grind arith
factor_pos (suc d) (suc k) l e = (omega arith, omega arith)

-- The fraction (p - n) / d.
abbrev pub IsValue : Rational → ℕ → ℕ → ℕ → Type 0
IsValue r p n d =
    (0 < r.denominator)
    × (pos_part r.numerator * d + n * r.denominator ≡ neg_part r.numerator * d + p * r.denominator)

quotients : (n d g k l : ℕ) → n ≡ k * g → d ≡ l * g → 0 < g → (n / g ≡ k) × (d / g ≡ l)
quotients n d g k l e f h = (rw e (quotient_unique k g h), rw f (quotient_unique l g h))

cross : (n d g k l : ℕ) → n ≡ k * g → d ≡ l * g → k * d ≡ n * l
cross n d g k l e f = rw (e, f) (grind arith)

pub neg_parts : (k : ℕ) → (pos_part (neg_ℤ (pos k)) ≡ 0) × (neg_part (neg_ℤ (pos k)) ≡ k)
neg_parts zero = (refl, refl)
neg_parts (suc k) = (refl, refl)

module _ (n d g k l : ℕ) (e : n ≡ k * g) (f : d ≡ l * g) (l_pos : 0 < l) (g_pos : 0 < g) where
  values_pos : (0 < d / g) × ((n / g) * d + 0 * (d / g) ≡ 0 * d + n * (d / g))
  values_pos =
      let q = quotients n d g k l e f g_pos in
      rw (q.0, q.1) (l_pos, omega (arith, cross n d g k l e f))

  values_neg :
      (0 < d / g)
      × (pos_part (neg_ℤ (pos (n / g))) * d + n * (d / g)
          ≡ neg_part (neg_ℤ (pos (n / g))) * d + 0 * (d / g))
  values_neg =
      let q = quotients n d g k l e f g_pos in
      rw (q.0, q.1, (neg_parts k).0, (neg_parts k).1) (l_pos, omega (arith, cross n d g k l e f))

-- Of a numerator and a positive denominator that are ints, `reduce` makes their fraction.
pub reduce-IsValue :
    (n : ℤ) (m : ℕ)
    → IsInt n
    → suc m < int_limit
    → IsValue (reduce n (pos (suc m))) (pos_part n) (neg_part n) (suc m)
unfolding reduce tdiv
reduce-IsValue (pos a) m hn hm =
    let d = gcd-Divides a (suc m) in
    let h = factor_pos (gcd a (suc m)) d.1.0 m d.1.1 in
    rw (to_int_lem (pos a) hn, to_int_lem (pos (suc m)) hm)
      (values_pos a (suc m) (gcd a (suc m)) d.0.0 d.1.0 d.0.1 d.1.1 h.0 h.1)
reduce-IsValue (negsuc a) m hn hm =
    let d = gcd-Divides (suc a) (suc m) in
    let h = factor_pos (gcd (suc a) (suc m)) d.1.0 m d.1.1 in
    rw (to_int_lem (negsuc a) hn, to_int_lem (pos (suc m)) hm)
      (values_neg (suc a) (suc m) (gcd (suc a) (suc m)) d.0.0 d.1.0 d.0.1 d.1.1 h.0 h.1)

gcd_on-zero : (a b : ℕ) (w : Acc ◌<◌ b) → b ≡ 0 → gcd_on a b w ≡ a
unfolding gcd_on
gcd_on-zero a b (Acc.intro zero next) e = refl
gcd_on-zero a b (Acc.intro (suc c) next) e = absurd (omega arith)

mod_self : (c k : ℕ) → c ≡ k → suc k % suc c ≡ 0
mod_self c k e = grind (arith, e)

gcd_on_self : (k b : ℕ) (w : Acc ◌<◌ b) → b ≡ suc k → gcd_on (suc k) b w ≡ suc k
unfolding gcd_on
gcd_on_self k b (Acc.intro zero next) e = refl
gcd_on_self k b (Acc.intro (suc c) next) e =
    gcd_on-zero (suc c) (suc k % suc c) (next (suc k % suc c) (remainder_lt (suc k) c))
      (mod_self c k (omega (arith, e)))
    ∙ e

gcd_self : (k : ℕ) → gcd (suc k) (suc k) ≡ suc k
unfolding gcd
gcd_self k = gcd_on_self k (suc k) (all_Acc (suc (suc k)) (suc k) (next_lt (suc k))) refl

-- Only equal numbers give the fraction 1.
equal_parts :
    (x : ℤ) (m r : ℕ)
    → 0 < r
    → r * suc m + neg_part x * r ≡ 0 * suc m + pos_part x * r
    → x ≡ pos (suc m)
equal_parts x m r h e =
    eq_of_parts x (pos (suc m))
      (cancel r (pos_part x + 0) (suc m + neg_part x) h (grind (arith, e)))

div_self : (m : ℕ) → suc m / suc m ≡ 1
div_self m = grind arith

unit : (m : ℕ) → suc m < int_limit → (reduce (pos (suc m)) (pos (suc m))).denominator ≡ 1
unfolding reduce
unit m h = rw (to_int_lem (pos (suc m)) h) (ap (λ g. suc m / g) (gcd_self m) ∙ div_self m)

-- A fraction that comes out as 1 is in lowest terms.
pub reduce-unit :
    (x : ℤ) (m : ℕ)
    → IsInt x
    → suc m < int_limit
    → (reduce x (pos (suc m))).numerator ≡ pos (reduce x (pos (suc m))).denominator
    → (reduce x (pos (suc m))).denominator ≡ 1
reduce-unit x m hx hm e =
    let r = reduce x (pos (suc m)) in
    let v = reduce-IsValue x m hx hm in
    let same : x ≡ pos (suc m) = equal_parts x m r.denominator v.0 (
      subst
        (λ z.
          pos_part z * suc m + neg_part x * r.denominator
          ≡ neg_part z * suc m + pos_part x * r.denominator)
        e v.1) in
    ap (λ z. (reduce z (pos (suc m))).denominator) same ∙ unit m hm
