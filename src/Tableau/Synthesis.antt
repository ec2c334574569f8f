-- ===== src/Tableau/Synthesis.antt =====
-- src/tableau/stabilizer_tableau.cpp: the synthesis of a Clifford string from a tableau. The
-- strategies eliminate on a copy and record each gate; `Building` is the two together.
pub mod AaronsonGottesman
pub mod HOpt
pub mod Record
use qsyn.Prelude.{ℕ, List, [], ◌∷◌, ◌++◌}
use qsyn.Pauli.Operator.{CliffordOperatorType, CliffordOperator, CliffordOperatorString}
use qsyn.Pauli.Trait.{x, z}
use qsyn.Tableau.Stabilizer.{StabilizerTableau, stabilizer_tableau, h, s, cx}

pub record Building : Type 0 where
  pub copy : StabilizerTableau
  pub clifford_ops : CliffordOperatorString

abbrev pub pushed : Building → StabilizerTableau → CliffordOperator → Building
pushed b copy op = record { copy = copy; clifford_ops = b.clifford_ops ++ op ∷ [] }

unfoldable pub add_cx : ℕ → ℕ → Building → Building
add_cx ctrl targ b =
    pushed b (cx b.copy ctrl targ)
      (record { type = CliffordOperatorType.cx; qubit₀ = ctrl; qubit₁ = targ })

unfoldable pub add_h : ℕ → Building → Building
add_h qubit b =
    pushed b (h b.copy qubit) (record { type = CliffordOperatorType.h; qubit₀ = qubit; qubit₁ = 0 })

unfoldable pub add_s : ℕ → Building → Building
add_s qubit b =
    pushed b (s b.copy qubit) (record { type = CliffordOperatorType.s; qubit₀ = qubit; qubit₁ = 0 })

unfoldable pub add_x : ℕ → Building → Building
add_x qubit b =
    pushed b (x b.copy qubit) (record { type = CliffordOperatorType.x; qubit₀ = qubit; qubit₁ = 0 })

unfoldable pub add_z : ℕ → Building → Building
add_z qubit b =
    pushed b (z b.copy qubit) (record { type = CliffordOperatorType.z; qubit₀ = qubit; qubit₁ = 0 })
