-- ===== src/Prelude/Loops.antt =====
-- Counted loops over an interval of indices, as the source's `for` over `iota`.
use Prim.Native.Nat.{ℕ, zero, suc, ◌+◌, ◌≤◌, ◌<◌}
use mathlib.Core.Path.{◌≡◌}
use mathlib.Core.Logic.{inl, inr}
use mathlib.Core.Bool.{Bool, true, false}
use mathlib.Core.Option.{Option, none, some}
use native.Mathlib.Omega.{arith}
use qsyn.Prelude.Tests.{if◌then◌else◌, Bool-cases}

-- `for (i = lo; i < lo + rounds; ++i) body`.
unfoldable pub for_range {ℓ} : {S : Type ℓ} → ℕ → ℕ → (ℕ → S → S) → S → S
for_range zero lo body st = st
for_range (suc rounds) lo body st = for_range rounds (lo + 1) body (body lo st)

-- What every round keeps, the loop keeps.
pub for_range_inv {ℓ κ} :
    {S : Type ℓ} (P : S → Type κ) (rounds lo : ℕ) (body : ℕ → S → S)
    → ((i : ℕ) (st : S) → lo ≤ i → i < lo + rounds → P st → P (body i st))
    → (st : S) → P st
    → P (for_range rounds lo body st)
unfolding for_range
for_range_inv P zero lo body keep st h = h
for_range_inv P (suc rounds) lo body keep st h =
    for_range_inv P rounds (lo + 1) body (λ i s low high p. keep i s (omega arith) (omega arith) p)
      (body lo st) (keep lo st (omega arith) (omega arith) h)

-- `find_if` over an interval, and `any_of`.
unfoldable pub find_from : ℕ → ℕ → (ℕ → Bool) → Option ℕ
find_from zero lo test = none
find_from (suc rounds) lo test =
    let rest = find_from rounds (lo + 1) test in if test lo then some lo else rest

pub find_from_bounds :
    (rounds lo : ℕ) (test : ℕ → Bool) {i : ℕ}
    → find_from rounds lo test ≡ some i
    → (lo ≤ i) × (i < lo + rounds) × (test i ≡ true)
unfolding find_from
find_from_bounds zero lo test e = ground arith
find_from_bounds (suc rounds) lo test {i} e = elim (Bool-cases (test lo)) [
  | inl h ↦ ground (arith, h)
  | inr h ↦
      let below = find_from_bounds rounds (lo + 1) test {i = i} (ground (arith, h)) in
      (omega arith, omega arith, below.2)
]

unfoldable pub any_from : ℕ → ℕ → (ℕ → Bool) → Bool
any_from zero lo test = false
any_from (suc rounds) lo test =
    let rest = any_from rounds (lo + 1) test in if test lo then true else rest

-- The same for a statement about the index: from the first index to the one past the last.
pub for_range_ind {ℓ κ} :
    {S : Type ℓ} (P : ℕ → S → Type κ) (rounds lo hi : ℕ) (body : ℕ → S → S)
    → lo + rounds ≡ hi
    → ((i : ℕ) (st : S) → lo ≤ i → i < hi → P i st → P (i + 1) (body i st))
    → (st : S) → P lo st
    → P hi (for_range rounds lo body st)
unfolding for_range
for_range_ind P zero lo hi body e keep st h = let e' : lo ≡ hi = omega arith in rw (← e') h
for_range_ind P (suc rounds) lo hi body e keep st h =
    for_range_ind P rounds (lo + 1) hi body (omega arith)
      (λ i s low high p. keep i s (omega arith) high p) (body lo st)
      (keep lo st (omega arith) (omega arith) h)
