-- ===== src/Prelude/Products.antt =====
-- Products of numbers: factors that cancel, and bounds.
use Prim.Native.Nat.{ℕ, ◌*◌, ◌≤◌, ◌<◌}
use mathlib.Core.Path.{◌≡◌}
use native.Mathlib.Omega.{arith}

pub cancel : (k a b : ℕ) → 0 < k → k * a ≡ k * b → a ≡ b
cancel k a b h e = grind arith

pub cancel_le : (k a b : ℕ) → 0 < k → k * a ≤ k * b → a ≤ b
cancel_le k a b h e = grind arith

pub cancel_lt : (k a b : ℕ) → k * a < k * b → a < b
cancel_lt k a b e = grind arith

pub mul_le : (a b c : ℕ) → a ≤ b → a * c ≤ b * c
mul_le a b c h = grind arith
