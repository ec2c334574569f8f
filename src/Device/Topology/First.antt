-- ===== src/Device/Topology/First.antt =====
-- Before the first phase of `floyd_warshall` the distances and predecessors are routed over no qubit.
use qsyn.Prelude.{
  ℕ, ◌<◌, ◌≡◌, refl, true, ◌==◌, List, arith, if◌then◌else◌, entry, inl, inr, eq_cases, Bool-cases,
}
use qsyn.Device.Qubit.{PhysicalQubit, max_qubit_id}
use qsyn.Device.Topology.{
  Topology, max_dist, init_predecessor_and_distance, clear_distance, clear_predecessor,
  initial_matrix, set_weight,
}
use qsyn.Device.Topology.Initial.{initial_matrix-entry}
use qsyn.Device.Topology.Phase.{IsSized}
use qsyn.Device.Topology.Routes.{Route, IsRouted}
use qsyn.Device.Topology.Start.{init-entry}
use qsyn.Device.Topology.Weights.{coupled, IsCoupling, set_weight-entry}

-- The routes of no step and of one step.
module _ (n : ℕ) (qs : List PhysicalQubit) (cp : IsCoupling n qs) (D P : ℕ → ℕ → ℕ)
    (D_lem : (i j : ℕ)
      → i < n
      → j < n
      → D i j ≡ (if coupled qs i j then 1 else if i == j then 0 else max_dist))
    (P_lem : (i j : ℕ) → i < n → j < n → P i j ≡ (if coupled qs i j then i else max_qubit_id)) where
  self : (i : ℕ) → i < n → D i i ≡ 0
  self i hi = ground (arith, D_lem i i hi hi, cp.apart i hi)

  one : (i j : ℕ) → i < n → j < n → coupled qs i j ≡ true → D i j ≡ 1
  one i j hi hj e = ground (arith, e, D_lem i j hi hj)

  still : (i : ℕ) → i < n → Route n (coupled qs) 0 D P i i
  still i hi = record {
    steps = 0;
    qubit = λ a. i;
    shortest = self i hi;
    first = refl;
    last = refl;
    inside = λ a low. hi;
    behind = λ a low. omega (arith, self i hi);
    before = λ a low. omega (arith, self i hi);
    between = λ a pos low. absurd (omega arith);
    couples = λ a low. absurd (omega arith);
    back = λ a low. absurd (omega arith);
    ahead = λ a low. absurd (omega arith);
  }

  one_step : (i j : ℕ) → i < n → j < n → coupled qs i j ≡ true → Route n (coupled qs) 0 D P i j
  one_step i j hi hj e = record {
    steps = 1;
    qubit = place;
    shortest = one i j hi hj e;
    first = refl;
    last = refl;
    inside = λ a low. ground (arith, hi, hj);
    behind = λ a low. elim (eq_cases a 0) [
      | inl z ↦ rw z (self i hi)
      | inr nz ↦ let u : a ≡ 1 = omega arith in rw u (one i j hi hj e)
    ];
    before = λ a low. elim (eq_cases a 0) [
      | inl z ↦ rw z (omega (arith, one i j hi hj e))
      | inr nz ↦ let u : a ≡ 1 = omega arith in rw u (omega (arith, self j hj))
    ];
    between = λ a pos low. absurd (omega arith);
    couples = λ a low. let z : a ≡ 0 = omega arith in rw z e;
    back = λ a low. let z : a ≡ 0 = omega arith in rw z (ground (arith, e, P_lem i j hi hj));
    ahead = λ a low.
        let z : a ≡ 0 = omega arith in
        rw z (ground (arith, e, P_lem j i hj hi, cp.both_ways i j hi hj));
  }
    where
      place : ℕ → ℕ
      place a = if a == 0 then i else j

  first-Route : (i j : ℕ) → i < n → j < n → D i j < max_dist → Route n (coupled qs) 0 D P i j
  first-Route i j hi hj low = elim (Bool-cases (coupled qs i j)) [
    | inl e ↦ one_step i j hi hj e
    | inr ne ↦ elim (eq_cases i j) [
      | inl e ↦ rw (← e) (still i hi)
      | inr apart ↦ absurd (ground (arith, ne, apart, D_lem i j hi hj))
    ]
  ]

  pub first-IsRouted : IsRouted n (coupled qs) 0 D P
  first-IsRouted = record {
    loopless = self;
    symmetric =
        λ i j hi hj. ground (arith, D_lem i j hi hj, D_lem j i hj hi, cp.both_ways i j hi hj);
    bounded = λ i j hi hj. ground (arith, D_lem i j hi hj);
    adjacent = λ i j hi hj e. omega (arith, one i j hi hj e);
    triangle = λ k i j low hk hi hj. absurd (omega arith);
    rooted = λ i hi. ground (arith, P_lem i i hi hi, cp.apart i hi);
    route = first-Route;
  }

-- `_set_weight` and `_init_predecessor_and_distance` on the matrix of `calculate_path`.
module _ {qs : List PhysicalQubit} (t : Topology) (cp : IsCoupling t.num_qubit qs) where
  abbrev pub start : Topology
  start =
      init_predecessor_and_distance qs (set_weight t.num_qubit qs (initial_matrix t.num_qubit))
        (clear_distance (clear_predecessor t))

  pub start-IsRouted :
      IsSized t.num_qubit start
      × IsRouted t.num_qubit (coupled qs) 0 (entry start.distance) (entry start.predecessor)
  start-IsRouted =
      let n = t.num_qubit in
      let blank = initial_matrix-entry n in
      let weighed = set_weight-entry cp blank.0 in
      let made = init-entry qs (set_weight n qs (initial_matrix n)) t in
      (
        made.0,
        first-IsRouted n qs cp (entry start.distance) (entry start.predecessor)
            (λ i j hi hj. ground (arith, made.1 i j hi hj, weighed.1 i j hi, blank.1 i j hi hj))
            (λ i j hi hj. ground (
              arith,
              made.2 i j hi hj,
              weighed.1 i j hi,
              blank.1 i j hi hj,
              cp.at_id i hi,
              cp.apart i hi,
            )),
      )
