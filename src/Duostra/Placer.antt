-- ===== src/Duostra/Placer.antt =====
-- The placer that puts every logical qubit at the physical one of its number, StaticPlacer of
-- src/duostra/placer.cpp.
use qsyn.Prelude.{
  ℕ, zero, suc, ◌+◌, ◌<◌, ◌≡◌, refl, ap, Option, some, ◌>>=◌, List, [], ◌∷◌, length, get_or, arith,
}
use qsyn.Device.State.{Device, place}
use qsyn.Duostra.Placement.{IsAssignment}

-- The loop of `_place`, from its counter on.
abbrev pub numbers : ℕ → ℕ → List ℕ
numbers i zero = []
numbers i (suc n) = i ∷ numbers (i + 1) n

abbrev pub static_assignment : Device → List ℕ
static_assignment d = numbers 0 d.num_qubit

-- `place_and_assign`.
abbrev pub place_and_assign : (Device → List ℕ) → Device → Option (List ℕ × Device)
place_and_assign placer d = let assign = placer d in place assign d >>= λ d'. some (assign, d')

length-numbers : (i n : ℕ) → length (numbers i n) ≡ n
length-numbers i zero = refl
length-numbers i (suc n) = ap suc (length-numbers (i + 1) n)

get_or-numbers : (i n k : ℕ) → k < n → get_or (numbers i n) k 0 ≡ i + k
get_or-numbers i zero k h = absurd (omega arith)
get_or-numbers i (suc n) zero h = omega arith
get_or-numbers i (suc n) (suc k) h = omega (arith, get_or-numbers (i + 1) n k (omega arith))

-- Its assignment is one to one.
pub static_assignment-IsAssignment : (d : Device) → IsAssignment d.num_qubit (static_assignment d)
static_assignment-IsAssignment d = record {
  size = length-numbers 0 d.num_qubit;
  logical_at = λ p. p;
  inside = λ l hl. omega (arith, get_or-numbers 0 d.num_qubit l hl);
  at_inside = λ p hp. hp;
  back = λ l hl. omega (arith, get_or-numbers 0 d.num_qubit l hl);
  forth = λ p hp. omega (arith, get_or-numbers 0 d.num_qubit p hp);
}
