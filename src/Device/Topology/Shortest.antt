-- ===== src/Device/Topology/Shortest.antt =====
-- `floyd_warshall` finds the shortest ways between the qubits of a device.
use qsyn.Prelude.{ℕ, zero, suc, ◌+◌, ◌≤◌, ◌<◌, ◌≡◌, Bool, true, List, arith, entry, for_range_ind}
use qsyn.Device.Qubit.{PhysicalQubit}
use qsyn.Device.Topology.{
  Topology, max_dist, clear_distance, clear_predecessor, initial_matrix, relax_all, floyd_warshall,
}
use qsyn.Device.Topology.Extension.{step-IsRouted}
use qsyn.Device.Topology.First.{start, start-IsRouted}
use qsyn.Device.Topology.Phase.{IsSized, relax_all-IsStep}
use qsyn.Device.Topology.Routes.{Route, IsRouted}
use qsyn.Device.Topology.Weights.{coupled, IsCoupling}

-- A walk along couplings between qubits of the device, and its number of steps.
pub data Walk (n : ℕ) (adjacent : ℕ → ℕ → Bool) : ℕ → ℕ → ℕ → Type 0 where
  stay : (i : ℕ) → i < n → Walk n adjacent i i 0
  step :
      (i j k l : ℕ)
      → i < n
      → adjacent i j ≡ true
      → Walk n adjacent j k l
      → Walk n adjacent i k (suc l)

pub Walk-inside : {n : ℕ} {e : ℕ → ℕ → Bool} {i j l : ℕ} → Walk n e i j l → (i < n) × (j < n)
Walk-inside (Walk.stay i hi) = (hi, hi)
Walk-inside (Walk.step i j k l hi e w) = (hi, (Walk-inside w).1)

-- The result of `floyd_warshall` on the matrix that `calculate_path` makes.
abbrev pub solved : List PhysicalQubit → Topology → Topology
solved qs t = floyd_warshall qs (initial_matrix t.num_qubit) (clear_distance (clear_predecessor t))

module _ {qs : List PhysicalQubit} (t : Topology) (cp : IsCoupling t.num_qubit qs) where
  abbrev State : ℕ → Topology → Type 0
  State k u =
      IsSized t.num_qubit u
      × IsRouted t.num_qubit (coupled qs) k (entry u.distance) (entry u.predecessor)

  -- After all phases, the triangle inequality holds at every qubit and every distance has a route.
  pub floyd_warshall-IsRouted : State t.num_qubit (solved qs t)
  unfolding floyd_warshall
  floyd_warshall-IsRouted =
      for_range_ind State t.num_qubit 0 t.num_qubit (relax_all t.num_qubit) (omega arith)
        (λ k u low hk h.
          let phase = relax_all-IsStep t.num_qubit k u hk h.0 (h.1.loopless k hk) h.1.bounded in
          (phase.0, step-IsRouted hk h.1 phase.1))
        (start t cp) (start-IsRouted t cp)

  -- The way of a route to each of its places from the end.
  route-Walk :
      {D P : ℕ → ℕ → ℕ} {i j : ℕ} (r : Route t.num_qubit (coupled qs) t.num_qubit D P i j)
      (left a : ℕ)
      → a + left ≡ r.steps
      → Walk t.num_qubit (coupled qs) (r.qubit a) j left
  route-Walk r zero a e =
      let e' : a ≡ r.steps = omega arith in
      rw (e', r.last) (Walk.stay _ (rw (← r.last) (r.inside r.steps (omega arith))))
  route-Walk r (suc left) a e =
      Walk.step (r.qubit a) (r.qubit (a + 1)) _ left (r.inside a (omega arith))
        (r.couples a (omega arith)) (route-Walk r left (a + 1) (omega arith))

  -- For a device whose couplings go both ways, the distance between two of its qubits is at most the
  -- number of steps of every walk between them, and a distance below the maximum is that of a walk.
  pub floyd_warshall-shortest :
      (i j : ℕ)
      → i < t.num_qubit
      → j < t.num_qubit
      → ((l : ℕ) → Walk t.num_qubit (coupled qs) i j l → entry (solved qs t).distance i j ≤ l)
        × (entry (solved qs t).distance i j < max_dist
            → Walk t.num_qubit (coupled qs) i j (entry (solved qs t).distance i j))
  floyd_warshall-shortest i j hi hj = (
    λ l w. below w,
    λ low. let r = routed.route i j hi hj low in rw (r.shortest, ← r.first) (whole r),
  )
    where
      D : ℕ → ℕ → ℕ
      D = entry (solved qs t).distance

      whole :
          {P : ℕ → ℕ → ℕ} (r : Route t.num_qubit (coupled qs) t.num_qubit D P i j)
          → Walk t.num_qubit (coupled qs) (r.qubit 0) j r.steps
      whole r = route-Walk r r.steps 0 (omega arith)

      routed : IsRouted t.num_qubit (coupled qs) t.num_qubit D (entry (solved qs t).predecessor)
      routed = floyd_warshall-IsRouted.1

      below : {i j l : ℕ} → Walk t.num_qubit (coupled qs) i j l → D i j ≤ l
      below (Walk.stay i hi) = omega (arith, routed.loopless i hi)
      below (Walk.step i j k l hi e w) =
          let (hj, hk) = Walk-inside w in
          omega (arith, below w, routed.adjacent i j hi hj e, routed.triangle j i k hj hj hi hk)
