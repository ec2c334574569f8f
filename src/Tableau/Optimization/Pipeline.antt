-- ===== src/Tableau/Optimization/Pipeline.antt =====
-- `full_optimize`: the passes in turn, until a round removes no rotation.
use qsyn.Prelude.{
  ℕ, zero, suc, ◌<◌, ◌≡◌, true, false, ltb, ltb→lt, Bool-cases, inl, inr, arith, if◌then◌else◌,
  Option, none, some, ◌>>=◌, Option-cases,
}
use qsyn.Tableau.Optimization.Hadamards.{minimize_internal_hadamards}
use qsyn.Tableau.Optimization.Passes.{Pass, merge_rotations_tableau, optimize_phase_polynomial}
use qsyn.Tableau.SubTableaux.{Tableau, Extraction, n_pauli_rotations}

-- `ToddPhasePolynomialOptimizationStrategy::optimize` is the parameter `todd`.
unfoldable pub optimize_once : Extraction → Pass → Tableau → Option Tableau
unfolding merge_rotations_tableau minimize_internal_hadamards optimize_phase_polynomial
optimize_once extract todd t =
    optimize_phase_polynomial extract todd
      (minimize_internal_hadamards extract (merge_rotations_tableau extract t))

-- The do-while loop, on fuel; `none` also where a round has no result.
unfoldable pub optimize_loop : ℕ → Extraction → Pass → Tableau → Option Tableau
unfolding optimize_once n_pauli_rotations
optimize_loop zero extract todd t = none
optimize_loop (suc fuel) extract todd t = optimize_once extract todd t >>= λ t'.
    let rest = optimize_loop fuel extract todd t' in
    if ltb (n_pauli_rotations t') (n_pauli_rotations t) then rest else some t'

unfoldable pub full_optimize : Extraction → Pass → Tableau → Option Tableau
unfolding optimize_loop minimize_internal_hadamards n_pauli_rotations
full_optimize extract todd t = optimize_loop (suc (n_pauli_rotations t)) extract todd t >>= λ out.
    some (minimize_internal_hadamards extract out)

-- The loop without fuel: it ends after the first round that does not remove a rotation, or at a round
-- that has no result.
pub data Rounds (extract : Extraction) (todd : Pass) : Tableau → Option Tableau → Type 0 where
  fails : (t : Tableau) → optimize_once extract todd t ≡ none → Rounds extract todd t none
  stop :
      (t t' : Tableau)
      → optimize_once extract todd t ≡ some t'
      → ltb (n_pauli_rotations t') (n_pauli_rotations t) ≡ false
      → Rounds extract todd t (some t')
  again :
      (t t' : Tableau) (out : Option Tableau)
      → optimize_once extract todd t ≡ some t'
      → ltb (n_pauli_rotations t') (n_pauli_rotations t) ≡ true
      → Rounds extract todd t' out
      → Rounds extract todd t out

-- With one round more than the tableau has rotations, the loop on fuel is the loop of the source, whatever
-- the strategies do: it comes to a round that removes no rotation, and returns what that round leaves, if
-- no round before is without result.
pub optimize_loop-Rounds :
    (fuel : ℕ) (extract : Extraction) (todd : Pass) (t : Tableau)
    → n_pauli_rotations t < fuel
    → Rounds extract todd t (optimize_loop fuel extract todd t)
unfolding optimize_loop
optimize_loop-Rounds zero extract todd t h = elim h [ ]
optimize_loop-Rounds (suc fuel) extract todd t h =
    elim (Option-cases (optimize_once extract todd t)) [
      | inl none_left ↦ rw none_left (Rounds.fails t none_left)
      | inr (t', ran) ↦ elim (Bool-cases (ltb (n_pauli_rotations t') (n_pauli_rotations t))) [
        | inl e ↦
            rw (ran, e)
              (Rounds.again t t' _ ran e (
                optimize_loop-Rounds fuel extract todd t'
                  (omega (arith, ltb→lt (n_pauli_rotations t') (n_pauli_rotations t) e))))
        | inr e ↦ rw (ran, e) (Rounds.stop t t' ran e)
      ]
    ]
