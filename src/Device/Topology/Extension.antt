-- ===== src/Device/Topology/Extension.antt =====
-- A phase of `floyd_warshall` keeps the distances and predecessors routed, over one more qubit.
use qsyn.Prelude.{ℕ, ◌+◌, ◌≤◌, ◌<◌, ◌≡◌, ◌∙◌, Bool, arith, inl, inr, lt_cases, eq_cases}
use qsyn.Device.Topology.{max_dist}
use qsyn.Device.Topology.Direct.{old-Route}
use qsyn.Device.Topology.Detour.{new-Route}
use qsyn.Device.Topology.Routes.{Route, IsRouted, IsStep, kept}

module _ {n : ℕ} {coupled : ℕ → ℕ → Bool} {K : ℕ} {D P D' P' : ℕ → ℕ → ℕ} (inside : K < n)
    (h : IsRouted n coupled K D P) (st : IsStep n K D P D' P') where
  shorter : (i j : ℕ) → i < n → j < n → D' i j ≤ D i j
  shorter i j hi hj = ground (arith, st.distance_after i j hi hj)

  step-Route : (i j : ℕ) → i < n → j < n → D' i j < max_dist → Route n coupled (K + 1) D' P' i j
  step-Route i j hi hj low = elim (lt_cases (D i K + D K j) (D i j)) [
    | inl lt ↦
        let top = h.bounded i j hi hj in
        new-Route inside h st i j hi hj lt (h.route i K hi inside (omega arith))
          (h.route K j inside hj (omega arith))
    | inr le ↦
        old-Route inside h st i j hi hj le
          (h.route i j hi hj (omega (arith, (kept st i j hi hj le).0)))
  ]

  step_symmetric : (i j : ℕ) → i < n → j < n → D' i j ≡ D' j i
  step_symmetric i j hi hj = ground (
    arith,
    st.distance_after i j hi hj,
    st.distance_after j i hj hi,
    h.symmetric i j hi hj,
    h.symmetric i K hi inside,
    h.symmetric K j inside hj,
  )

  step_triangle : (k i j : ℕ) → k < K + 1 → k < n → i < n → j < n → D' i j ≤ D' i k + D' k j
  step_triangle k i j low hk hi hj = elim (eq_cases k K) [
    | inl e ↦ rw e (
        ground (
          arith,
          st.distance_after i j hi hj,
          st.distance_after i K hi inside,
          st.distance_after K j inside hj,
          h.loopless K inside,
        ))
    | inr ne ↦
        let below : k < K = omega arith in
        ground (
          arith,
          st.distance_after i j hi hj,
          st.distance_after i k hi hk,
          st.distance_after k j hk hj,
          h.triangle k i j below hk hi hj,
          h.triangle k i K below hk hi inside,
          h.triangle k K j below hk inside hj,
        )
  ]

  pub step-IsRouted : IsRouted n coupled (K + 1) D' P'
  step-IsRouted = record {
    loopless = λ i hi. omega (arith, shorter i i hi hi, h.loopless i hi);
    symmetric = step_symmetric;
    bounded = λ i j hi hj. omega (arith, shorter i j hi hj, h.bounded i j hi hj);
    adjacent = λ i j hi hj e. omega (arith, shorter i j hi hj, h.adjacent i j hi hj e);
    triangle = step_triangle;
    rooted = λ i hi. (kept st i i hi hi (omega (arith, h.loopless i hi))).1 ∙ h.rooted i hi;
    route = step-Route;
  }
