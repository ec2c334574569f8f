-- ===== src/Tableau/Optimization/Passes/Loop.antt =====
-- The do-while loop of `merge_rotations` on a tableau: the fuel is enough.
use qsyn.Prelude.{
  ℕ, zero, suc, ◌≤◌, ◌<◌, ◌≡◌, true, false, List, length, ltb, Bool-cases, inl, inr, arith, ltb→lt,
}
use qsyn.Pauli.Rotation.{PauliRotation}
use qsyn.Tableau.Optimization.Passes.{merge_loop}
use qsyn.Tableau.Optimization.Rotations.{merge_rotations, absorb_clifford_rotations}
use qsyn.Tableau.Optimization.Rotations.Count.{
  length-merge_rotations, length-absorb_clifford_rotations,
}
use qsyn.Tableau.Stabilizer.{StabilizerTableau}

-- The body of the loop.
abbrev pub round : StabilizerTableau → List PauliRotation → StabilizerTableau × List PauliRotation
round c rs = absorb_clifford_rotations c (merge_rotations rs)

-- The loop without fuel: it ends after the first round that does not make the list shorter.
pub data Runs
    : StabilizerTableau → List PauliRotation → StabilizerTableau × List PauliRotation → Type 0 where
  stop :
      (c : StabilizerTableau) (rs : List PauliRotation)
      → ltb (length (round c rs).1) (length rs) ≡ false
      → Runs c rs (round c rs)
  again :
      (c : StabilizerTableau) (rs : List PauliRotation)
      (out : StabilizerTableau × List PauliRotation)
      → ltb (length (round c rs).1) (length rs) ≡ true
      → Runs (round c rs).0 (round c rs).1 out
      → Runs c rs out

-- With one round more than there are rotations, the loop on fuel is the loop of the source: it comes to a
-- round that does not make the list shorter, and returns what that round leaves.
pub merge_loop-Runs :
    (fuel : ℕ) (c : StabilizerTableau) (rs : List PauliRotation)
    → length rs < fuel
    → Runs c rs (merge_loop fuel c rs)
unfolding merge_loop
merge_loop-Runs zero c rs h = elim h [ ]
merge_loop-Runs (suc fuel) c rs h = elim (Bool-cases (ltb (length (round c rs).1) (length rs))) [
  | inl e ↦ rw e (
      Runs.again c rs _ e (
        merge_loop-Runs fuel (round c rs).0 (round c rs).1
          (omega (arith, ltb→lt (length (round c rs).1) (length rs) e))))
  | inr e ↦ rw e (Runs.stop c rs e)
]

pub length-round :
    (c : StabilizerTableau) (rs : List PauliRotation) → length (round c rs).1 ≤ length rs
length-round c rs =
    omega
      (arith, length-absorb_clifford_rotations c (merge_rotations rs), length-merge_rotations rs)

pub length-merge_loop :
    (fuel : ℕ) (c : StabilizerTableau) (rs : List PauliRotation)
    → length (merge_loop fuel c rs).1 ≤ length rs
unfolding merge_loop
length-merge_loop zero c rs = omega arith
length-merge_loop (suc fuel) c rs = elim (Bool-cases (ltb (length (round c rs).1) (length rs))) [
  | inl e ↦
      rw e (omega (arith, length-merge_loop fuel (round c rs).0 (round c rs).1, length-round c rs))
  | inr e ↦ rw e (length-round c rs)
]
