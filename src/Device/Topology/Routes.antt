-- ===== src/Device/Topology/Routes.antt =====
-- What holds of distances and predecessors between two phases of `floyd_warshall`.
use qsyn.Prelude.{ℕ, ◌+◌, ◌≤◌, ◌<◌, ◌≡◌, Bool, true, ltb, arith, if◌then◌else◌}
use qsyn.Device.Qubit.{max_qubit_id}
use qsyn.Device.Topology.{max_dist}

module _ (n : ℕ) (coupled : ℕ → ℕ → Bool) (K : ℕ) (D P : ℕ → ℕ → ℕ) where
  -- A way between two qubits along couplings, by its qubits in order, that passes only qubits below `K`:
  -- it is as long as the distance says, and the predecessors follow it from either end.
  pub record Route (i j : ℕ) : Type 0 where
    pub steps : ℕ
    pub qubit : ℕ → ℕ
    pub shortest : D i j ≡ steps
    pub first : qubit 0 ≡ i
    pub last : qubit (steps) ≡ j
    pub inside : (a : ℕ) → a ≤ steps → qubit a < n
    pub behind : (a : ℕ) → a ≤ steps → D i (qubit a) ≡ a
    pub before : (a : ℕ) → a ≤ steps → a + D (qubit a) j ≡ steps
    pub between : (a : ℕ) → 0 < a → a < steps → qubit a < K
    pub couples : (a : ℕ) → a < steps → coupled (qubit a) (qubit (a + 1)) ≡ true
    pub back : (a : ℕ) → a < steps → P i (qubit (a + 1)) ≡ qubit a
    pub ahead : (a : ℕ) → a < steps → P j (qubit a) ≡ qubit (a + 1)

  -- The invariant: after the phases of the qubits below `K`, the distances obey the triangle inequality at
  -- each of them, and each distance below the maximum has a route.
  pub record IsRouted : Type 0 where
    pub loopless : (i : ℕ) → i < n → D i i ≡ 0
    pub symmetric : (i j : ℕ) → i < n → j < n → D i j ≡ D j i
    pub bounded : (i j : ℕ) → i < n → j < n → D i j ≤ max_dist
    pub adjacent : (i j : ℕ) → i < n → j < n → coupled i j ≡ true → D i j ≤ 1
    pub triangle : (k i j : ℕ) → k < K → k < n → i < n → j < n → D i j ≤ D i k + D k j
    pub rooted : (i : ℕ) → i < n → P i i ≡ max_qubit_id
    pub route : (i j : ℕ) → i < n → j < n → D i j < max_dist → Route i j

-- A phase: the distances and predecessors afterwards, by those before.
pub record IsStep (n K : ℕ) (D P D' P' : ℕ → ℕ → ℕ) : Type 0 where
  pub distance_after :
      (i j : ℕ)
      → i < n
      → j < n
      → D' i j ≡ (if ltb (D i K + D K j) (D i j) then D i K + D K j else D i j)
  pub predecessor_after :
      (i j : ℕ) → i < n → j < n → P' i j ≡ (if ltb (D i K + D K j) (D i j) then P K j else P i j)

module _ {n K : ℕ} {D P D' P' : ℕ → ℕ → ℕ} (st : IsStep n K D P D' P') (i j : ℕ) (hi : i < n)
    (hj : j < n) where
  pub kept : D i j ≤ D i K + D K j → (D' i j ≡ D i j) × (P' i j ≡ P i j)
  kept le = ground (arith, st.distance_after i j hi hj, st.predecessor_after i j hi hj)

  pub improved : D i K + D K j < D i j → (D' i j ≡ D i K + D K j) × (P' i j ≡ P K j)
  improved lt = ground (arith, st.distance_after i j hi hj, st.predecessor_after i j hi hj)

  -- At a distance that the way through `K` does not undercut, the new distance is that way's.
  pub reached : D i K + D K j ≤ D i j → D' i j ≡ D i K + D K j
  reached le = ground (arith, st.distance_after i j hi hj)
