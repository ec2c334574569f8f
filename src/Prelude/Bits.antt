-- ===== src/Prelude/Bits.antt =====
-- Exclusive or, and the check of a Boolean statement at every assignment.
use mathlib.Core.Path.{◌≡◌}
use mathlib.Core.Bool.{Bool, true, false, not, ◌&&◌}
use native.Mathlib.Omega.{arith}

abbrev pub xor : Bool → Bool → Bool
xor true b = not b
xor false b = b

abbrev pub beq : Bool → Bool → Bool
beq true b = b
beq false b = not b

pub beq→eq : (a b : Bool) → beq a b ≡ true → a ≡ b
beq→eq a b h = ground arith

abbrev pub both : (Bool → Bool) → Bool
both p = p true && p false

pub both_sound : (p : Bool → Bool) (b : Bool) → both p ≡ true → p b ≡ true
both_sound p true h = ground arith
both_sound p false h = ground arith
