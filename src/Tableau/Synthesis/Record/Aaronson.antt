-- ===== src/Tableau/Synthesis/Record/Aaronson.antt =====
-- `AGSynthesisStrategy::synthesize` keeps the record, so its string undoes its elimination.
use qsyn.Prelude.{
  ℕ, zero, suc, ◌+◌, ◌-◌, ◌<◌, ◌≡◌, ◌∙◌, ap, refl, sym, arith, Bool, false, not, ◌==◌,
  if◌then◌else◌, Bool-cases, Option-cases, inl, inr, Option, none, some, for_range, for_range_inv,
  find_from, find_from_bounds, any_from,
}
use qsyn.Pauli.Product
use qsyn.Pauli.Operator.{adjoint}
use qsyn.Pauli.Trait.{apply}
use qsyn.Tableau.Stabilizer.{
  StabilizerTableau, n_qubits, stabilizer_tableau, stabilizer, destabilizer,
}
use qsyn.Tableau.Stabilizer.Rows.{IsWellFormed, n_qubits-eq}
use qsyn.Tableau.Stabilizer.Adjoint.{apply-adjoint_tableau}
use qsyn.Tableau.Synthesis.{Building, add_cx, add_h, add_s, add_x, add_z}
use qsyn.Tableau.Synthesis.AaronsonGottesman.{
  qubits, rounds_after, stab_x_set, stab_z_set, destab_x_set, destab_z_set, turn_z_to_x,
  x_elsewhere, make_destab_x_main_diag_1, make_destab_x_off_diag_0, make_stab_z_off_diag_0,
  clear_destab_z, clear_stab_x, clear_qubit, clear_from, fix_signs, start, eliminate, synthesize,
}
use qsyn.Tableau.Synthesis.Record.{
  IsRecord, add_cx-IsRecord, add_h-IsRecord, add_s-IsRecord, add_x-IsRecord, add_z-IsRecord,
  if-IsRecord, qubits-eq,
}

module _ (n : ℕ) (t : StabilizerTableau) where
  abbrev R : Building → Type 0
  R = IsRecord n t

  -- A loop over the qubits after q that adds gates between q and the qubit of the round.
  loop-R :
      (q : ℕ) (b c : Building) (test : Building → ℕ → Bool) (step : ℕ → Building → Building)
      → R b
      → R c
      → ((k : ℕ) (d : Building) → q < k → k < n → R d → R (step k d))
      → R (for_range (rounds_after c q) (q + 1) (λ k d. if test d k then step k d else d) b)
  loop-R q b c test step rb rc keep =
      for_range_inv R (rounds_after c q) (q + 1) (λ k d. if test d k then step k d else d)
        (λ k d low high rd.
          if-IsRecord n t (test d k) (step k d) d
            (keep k d (omega arith) (omega (arith, qubits-eq n t c rc)) rd) rd)
        b rb

  module _ (q : ℕ) (q_in : q < n) where
    from_q : (k : ℕ) (d : Building) → q < k → k < n → R d → R (add_cx q k d)
    from_q k d low high r = add_cx-IsRecord n t q k d q_in high (omega arith) r

    to_q : (k : ℕ) (d : Building) → q < k → k < n → R d → R (add_cx k q d)
    to_q k d low high r = add_cx-IsRecord n t k q d high q_in (omega arith) r

    turn_z_to_x-R : (ctrl : ℕ) (b : Building) → ctrl < n → R b → R (turn_z_to_x q ctrl b)
    turn_z_to_x-R ctrl b c_in r = elim (Bool-cases (ctrl == q)) [
      | inl e ↦ rw e (add_h-IsRecord n t ctrl b r)
      | inr e ↦ rw e (
          add_cx-IsRecord n t ctrl q (add_h ctrl b) c_in q_in (λ p. ground (arith, e, p))
            (add_h-IsRecord n t ctrl b r))
    ]

    x_elsewhere-R :
        (o : Option ℕ) (b : Building)
        → ((i : ℕ) → o ≡ some i → (q < i) × (i < n))
        → R b
        → R (x_elsewhere o q b)
    x_elsewhere-R (some ctrl) b found r = to_q ctrl b (found ctrl refl).0 (found ctrl refl).1 r
    x_elsewhere-R none b found r =
        elim (Option-cases (find_from (qubits b - q) q (destab_z_set b q))) [
          | inl e ↦ rw e r
          | inr (ctrl, e) ↦ rw e (
              turn_z_to_x-R ctrl b
                (omega (
                  arith,
                  find_from_bounds (qubits b - q) q (destab_z_set b q) e,
                  qubits-eq n t b r,
                ))
                r)
        ]

    make_destab_x_main_diag_1-R : (b : Building) → R b → R (make_destab_x_main_diag_1 q b)
    unfolding make_destab_x_main_diag_1
    make_destab_x_main_diag_1-R b r =
        if-IsRecord n t (destab_x_set b q q) b
          (x_elsewhere (find_from (rounds_after b q) (q + 1) (destab_x_set b q)) q b) r
          (x_elsewhere-R (find_from (rounds_after b q) (q + 1) (destab_x_set b q)) b
            (λ i e. (
              omega (arith, find_from_bounds (rounds_after b q) (q + 1) (destab_x_set b q) e),
              omega (
                arith,
                find_from_bounds (rounds_after b q) (q + 1) (destab_x_set b q) e,
                qubits-eq n t b r,
              ),
            ))
            r)

    clear_destab_z-R : (b : Building) → R b → R (clear_destab_z q b)
    unfolding clear_destab_z
    clear_destab_z-R b r =
        let b₁ = if not (destab_z_set b q q) then add_s q b else b in
        let r₁ : R b₁ =
          if-IsRecord n t (not (destab_z_set b q q)) (add_s q b) b (add_s-IsRecord n t q b r) r in
        add_s-IsRecord n t q
          (for_range (rounds_after b₁ q) (q + 1)
            (λ ctrl c. if destab_z_set c q ctrl then add_cx ctrl q c else c) b₁)
          (loop-R q b₁ b₁ (λ c k. destab_z_set c q k) (λ k c. add_cx k q c) r₁ r₁ to_q)

    make_destab_x_off_diag_0-R : (b : Building) → R b → R (make_destab_x_off_diag_0 q b)
    unfolding make_destab_x_off_diag_0
    make_destab_x_off_diag_0-R b r =
        let b₁ =
          for_range (rounds_after b q) (q + 1)
            (λ targ c. if destab_x_set c q targ then add_cx q targ c else c) b in
        let r₁ : R b₁ = loop-R q b b (λ c k. destab_x_set c q k) (λ k c. add_cx q k c) r r from_q in
        if-IsRecord n t (any_from (qubits b₁ - q) q (destab_z_set b₁ q)) (clear_destab_z q b₁) b₁
          (clear_destab_z-R b₁ r₁) r₁

    clear_stab_x-R : (b : Building) → R b → R (clear_stab_x q b)
    unfolding clear_stab_x
    clear_stab_x-R b r =
        let b₁ = add_h q b in
        let r₁ : R b₁ = add_h-IsRecord n t q b r in
        let b₂ =
          for_range (rounds_after b₁ q) (q + 1)
            (λ targ c. if stab_x_set c q targ then add_cx q targ c else c) b₁ in
        let r₂ : R b₂ =
          loop-R q b₁ b₁ (λ c k. stab_x_set c q k) (λ k c. add_cx q k c) r₁ r₁ from_q in
        add_h-IsRecord n t q (if stab_z_set b₂ q q then add_s q b₂ else b₂)
          (if-IsRecord n t (stab_z_set b₂ q q) (add_s q b₂) b₂ (add_s-IsRecord n t q b₂ r₂) r₂)

    make_stab_z_off_diag_0-R : (b : Building) → R b → R (make_stab_z_off_diag_0 q b)
    unfolding make_stab_z_off_diag_0
    make_stab_z_off_diag_0-R b r =
        let b₁ =
          for_range (rounds_after b q) (q + 1)
            (λ ctrl c. if stab_z_set c q ctrl then add_cx ctrl q c else c) b in
        let r₁ : R b₁ = loop-R q b b (λ c k. stab_z_set c q k) (λ k c. add_cx k q c) r r to_q in
        if-IsRecord n t (any_from (qubits b₁ - q) q (stab_x_set b₁ q)) (clear_stab_x q b₁) b₁
          (clear_stab_x-R b₁ r₁) r₁

    clear_qubit-R : (b : Building) → R b → R (clear_qubit q b)
    unfolding clear_qubit
    clear_qubit-R b r =
        make_stab_z_off_diag_0-R _ (make_destab_x_off_diag_0-R _ (make_destab_x_main_diag_1-R b r))

  clear_from-R :
      (stop : ℕ → Bool) (rounds q : ℕ) (b : Building)
      → rounds + q ≡ n
      → R b
      → R (clear_from stop rounds q b)
  unfolding clear_from
  clear_from-R stop zero q b e r = r
  clear_from-R stop (suc rounds) q b e r =
      if-IsRecord n t (stop q) b (clear_from stop rounds (q + 1) (clear_qubit q b)) r (
        clear_from-R stop rounds (q + 1) (clear_qubit q b) (omega arith)
          (clear_qubit-R q (omega arith) b r))

  fix_signs-R : (q : ℕ) (b : Building) → R b → R (fix_signs q b)
  unfolding fix_signs
  fix_signs-R q b r =
      let b₁ = if Product.is_neg (stabilizer b.copy q) then add_x q b else b in
      let r₁ : R b₁ =
        if-IsRecord n t (Product.is_neg (stabilizer b.copy q)) (add_x q b) b
          (add_x-IsRecord n t q b r) r in
      if-IsRecord n t (Product.is_neg (destabilizer b₁.copy q)) (add_z q b₁) b₁
        (add_z-IsRecord n t q b₁ r₁) r₁

  start-R : IsWellFormed n t → R (start t)
  unfolding start
  start-R w = record { leads = unfold apply in refl; valid = tt; well_formed = w }

  pub eliminate-IsRecord : (stop : ℕ → Bool) → IsWellFormed n t → IsRecord n t (eliminate stop t)
  unfolding eliminate
  eliminate-IsRecord stop w =
      let b = clear_from stop (n_qubits t) 0 (start t) in
      for_range_inv R (qubits b) 0 fix_signs (λ i c low high r. fix_signs-R i c r) b
        (clear_from-R stop (n_qubits t) 0 (start t) (omega (arith, n_qubits-eq t w)) (start-R w))

-- For a well-formed tableau, if no stop is requested after the loop, the string that `synthesize` returns leads from the tableau
-- at the end of the elimination back to the tableau that was given.
pub apply-synthesize :
    (n : ℕ) (stop : ℕ → Bool) (t : StabilizerTableau)
    → IsWellFormed n t
    → stop n ≡ false
    → apply (eliminate stop t).copy (synthesize stop t) ≡ t
unfolding synthesize
apply-synthesize n stop t w runs =
    let r = eliminate-IsRecord n t stop w in
    rw (n_qubits-eq t w, runs)
      (ap (λ u. apply u (adjoint (eliminate stop t).clifford_ops)) (sym r.leads)
        ∙ apply-adjoint_tableau n t (eliminate stop t).clifford_ops w r.valid)
