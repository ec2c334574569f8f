-- ===== src/Device/Topology/Direct.antt =====
-- A distance that a phase of `floyd_warshall` does not improve keeps its route.
use qsyn.Prelude.{ℕ, ◌+◌, ◌≤◌, ◌<◌, ◌≡◌, Bool, arith, ◌∙◌, inl, inr, lt_cases}
use qsyn.Device.Topology.Routes.{Route, IsRouted, IsStep, kept}

module _ {n : ℕ} {coupled : ℕ → ℕ → Bool} {K : ℕ} {D P D' P' : ℕ → ℕ → ℕ} (inside : K < n)
    (h : IsRouted n coupled K D P) (st : IsStep n K D P D' P') (i j : ℕ) (hi : i < n) (hj : j < n)
    (le : D i j ≤ D i K + D K j) (r : Route n coupled K D P i j) where
  direct_behind : (a : ℕ) → a ≤ r.steps → D i (r.qubit a) ≤ D i K + D K (r.qubit a)
  direct_behind a ha = elim (lt_cases 0 a) [
    | inl pos ↦ elim (lt_cases a r.steps) [
      | inl low ↦ omega (
        arith,
        le,
        r.shortest,
        h.triangle (r.qubit a) K j (r.between a pos low) (r.inside a ha) inside hj,
        r.behind a ha,
        r.before a ha,
      )
      | inr high ↦ let e : a ≡ r.steps = omega arith in rw (e, r.last) le
    ]
    | inr none ↦ omega (arith, r.behind a ha)
  ]

  direct_before : (a : ℕ) → a ≤ r.steps → D (r.qubit a) j ≤ D (r.qubit a) K + D K j
  direct_before a ha = elim (lt_cases 0 a) [
    | inl pos ↦ elim (lt_cases a r.steps) [
      | inl low ↦ omega (
        arith,
        le,
        r.shortest,
        h.triangle (r.qubit a) i K (r.between a pos low) (r.inside a ha) hi inside,
        r.behind a ha,
        r.before a ha,
      )
      | inr high ↦ omega (arith, r.before a ha)
    ]
    | inr none ↦ let e : a ≡ 0 = omega arith in rw (e, r.first) le
  ]

  direct_ahead : (a : ℕ) → a ≤ r.steps → D j (r.qubit a) ≤ D j K + D K (r.qubit a)
  direct_ahead a ha = omega (
    arith,
    direct_before a ha,
    h.symmetric j (r.qubit a) hj (r.inside a ha),
    h.symmetric (r.qubit a) K (r.inside a ha) inside,
    h.symmetric j K hj inside,
  )

  -- A distance that the phase does not improve keeps its route.
  pub old-Route : Route n coupled (K + 1) D' P' i j
  old-Route = record {
    steps = r.steps;
    qubit = r.qubit;
    shortest = (kept st i j hi hj le).0 ∙ r.shortest;
    first = r.first;
    last = r.last;
    inside = r.inside;
    behind =
        λ a ha. (kept st i (r.qubit a) hi (r.inside a ha) (direct_behind a ha)).0 ∙ r.behind a ha;
    before = λ a ha.
        rw (kept st (r.qubit a) j (r.inside a ha) hj (direct_before a ha)).0 (r.before a ha);
    between = λ a pos low. omega (arith, r.between a pos low);
    couples = r.couples;
    back = λ a ha.
        (kept st i (r.qubit (a + 1)) hi (r.inside (a + 1) (omega arith))
          (direct_behind (a + 1) (omega arith))).1
        ∙ r.back a ha;
    ahead = λ a ha.
        (kept st j (r.qubit a) hj (r.inside a (omega arith)) (direct_ahead a (omega arith))).1
        ∙ r.ahead a ha;
  }
