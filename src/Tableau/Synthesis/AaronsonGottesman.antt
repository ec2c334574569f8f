-- ===== src/Tableau/Synthesis/AaronsonGottesman.antt =====
-- `AGSynthesisStrategy::synthesize`. `stop_requested()`, which reports a signal, is the parameter
-- `stop`: its answer at each of the calls, which are numbered from 0.
use qsyn.Prelude.{
  ℕ, zero, suc, ◌+◌, ◌-◌, Bool, not, ◌==◌, if◌then◌else◌, Option, none, some, [], for_range,
  find_from, any_from,
}
use qsyn.Pauli.Product
use qsyn.Pauli.Operator.{CliffordOperatorString, adjoint}
use qsyn.Tableau.Stabilizer.{StabilizerTableau, n_qubits, stabilizer, destabilizer}
use qsyn.Tableau.Synthesis.{Building, add_cx, add_h, add_s, add_x, add_z}

abbrev pub qubits : Building → ℕ
qubits b = n_qubits b.copy

-- The qubits after the given one.
abbrev pub rounds_after : Building → ℕ → ℕ
rounds_after b q = qubits b - (q + 1)

abbrev pub stab_x_set : Building → ℕ → ℕ → Bool
stab_x_set b q k = Product.is_x_set (stabilizer b.copy q) k

abbrev pub stab_z_set : Building → ℕ → ℕ → Bool
stab_z_set b q k = Product.is_z_set (stabilizer b.copy q) k

abbrev pub destab_x_set : Building → ℕ → ℕ → Bool
destab_x_set b q k = Product.is_x_set (destabilizer b.copy q) k

abbrev pub destab_z_set : Building → ℕ → ℕ → Bool
destab_z_set b q k = Product.is_z_set (destabilizer b.copy q) k

-- The body of the second search, at the qubit where it breaks.
abbrev pub turn_z_to_x : ℕ → ℕ → Building → Building
turn_z_to_x q ctrl b = let b₁ = add_h ctrl b in if ctrl == q then b₁ else add_cx ctrl q b₁

abbrev pub on_some : Option ℕ → (ℕ → Building → Building) → Building → Building
on_some none f b = b
on_some (some i) f b = f i b

abbrev pub x_elsewhere : Option ℕ → ℕ → Building → Building
x_elsewhere (some ctrl) q b = add_cx ctrl q b
x_elsewhere none q b = on_some (find_from (qubits b - q) q (destab_z_set b q)) (turn_z_to_x q) b

unfoldable pub make_destab_x_main_diag_1 : ℕ → Building → Building
make_destab_x_main_diag_1 q b =
    if destab_x_set b q q
    then b
    else x_elsewhere (find_from (rounds_after b q) (q + 1) (destab_x_set b q)) q b

-- The branch of `if (some_z_set)`.
unfoldable pub clear_destab_z : ℕ → Building → Building
clear_destab_z q b =
    let b₁ = if not (destab_z_set b q q) then add_s q b else b in
    let b₂ =
      for_range (rounds_after b₁ q) (q + 1)
        (λ ctrl c. if destab_z_set c q ctrl then add_cx ctrl q c else c) b₁ in
    add_s q b₂

unfoldable pub make_destab_x_off_diag_0 : ℕ → Building → Building
unfolding clear_destab_z
make_destab_x_off_diag_0 q b =
    let b₁ =
      for_range (rounds_after b q) (q + 1)
        (λ targ c. if destab_x_set c q targ then add_cx q targ c else c) b in
    if any_from (qubits b₁ - q) q (destab_z_set b₁ q) then clear_destab_z q b₁ else b₁

-- The branch of `if (some_x_set)`.
unfoldable pub clear_stab_x : ℕ → Building → Building
clear_stab_x q b =
    let b₁ = add_h q b in
    let b₂ =
      for_range (rounds_after b₁ q) (q + 1)
        (λ targ c. if stab_x_set c q targ then add_cx q targ c else c) b₁ in
    let b₃ = if stab_z_set b₂ q q then add_s q b₂ else b₂ in add_h q b₃

unfoldable pub make_stab_z_off_diag_0 : ℕ → Building → Building
unfolding clear_stab_x
make_stab_z_off_diag_0 q b =
    let b₁ =
      for_range (rounds_after b q) (q + 1)
        (λ ctrl c. if stab_z_set c q ctrl then add_cx ctrl q c else c) b in
    if any_from (qubits b₁ - q) q (stab_x_set b₁ q) then clear_stab_x q b₁ else b₁

-- The body of the main loop.
unfoldable pub clear_qubit : ℕ → Building → Building
unfolding make_destab_x_main_diag_1 make_destab_x_off_diag_0 make_stab_z_off_diag_0
clear_qubit q b =
    make_stab_z_off_diag_0 q (make_destab_x_off_diag_0 q (make_destab_x_main_diag_1 q b))

-- The main loop, which ends early if a stop is requested.
unfoldable pub clear_from : (ℕ → Bool) → ℕ → ℕ → Building → Building
unfolding clear_qubit
clear_from stop zero q b = b
clear_from stop (suc rounds) q b =
    let rest = clear_from stop rounds (q + 1) (clear_qubit q b) in if stop q then b else rest

-- The body of the last loop.
unfoldable pub fix_signs : ℕ → Building → Building
fix_signs q b =
    let b₁ = if Product.is_neg (stabilizer b.copy q) then add_x q b else b in
    if Product.is_neg (destabilizer b₁.copy q) then add_z q b₁ else b₁

unfoldable pub start : StabilizerTableau → Building
start t = record { copy = t; clifford_ops = [] }

-- The state when the last loop ends.
unfoldable pub eliminate : (ℕ → Bool) → StabilizerTableau → Building
unfolding clear_from fix_signs start
eliminate stop t =
    let b = clear_from stop (n_qubits t) 0 (start t) in for_range (qubits b) 0 fix_signs b

unfoldable pub synthesize : (ℕ → Bool) → StabilizerTableau → CliffordOperatorString
synthesize stop t = if stop (n_qubits t) then [] else adjoint (eliminate stop t).clifford_ops
