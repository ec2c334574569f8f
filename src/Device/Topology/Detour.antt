-- ===== src/Device/Topology/Detour.antt =====
-- A distance that a phase of `floyd_warshall` improves has the way through the qubit of the phase.
use qsyn.Prelude.{
  ℕ, ◌+◌, ◌-◌, ◌≤◌, ◌<◌, ◌≡◌, refl, ap, ap₂, Bool, true, leb, arith, le→leb, lt→leb_false, ◌∙◌, ◌⊎◌,
  inl, inr, if◌then◌else◌, lt_cases,
}
use qsyn.Device.Topology.Routes.{Route, IsRouted, IsStep, kept, improved, reached}

module _ {n : ℕ} {coupled : ℕ → ℕ → Bool} {K : ℕ} {D P D' P' : ℕ → ℕ → ℕ} (inside : K < n)
    (h : IsRouted n coupled K D P) (st : IsStep n K D P D' P') (i j : ℕ) (hi : i < n) (hj : j < n)
    (lt : D i K + D K j < D i j) (r : Route n coupled K D P i K)
    (s : Route n coupled K D P K j) where
  -- The way through `K`.
  joined : ℕ → ℕ
  joined a = if leb a r.steps then r.qubit a else s.qubit (a - r.steps)

  joined_left : (a : ℕ) → a ≤ r.steps → joined a ≡ r.qubit a
  unfolding joined
  joined_left a ha = rw (le→leb a r.steps ha) refl

  joined_right : (b : ℕ) → joined (r.steps + b) ≡ s.qubit b
  unfolding joined
  joined_right b = elim (lt_cases 0 b) [
    | inl pos ↦
        let e : r.steps + b - r.steps ≡ b = omega arith in
        rw (lt→leb_false (r.steps + b) r.steps (omega arith), e) refl
    | inr none ↦
        let e : b ≡ 0 = omega arith in
        let e' : r.steps + 0 ≡ r.steps = omega arith in
        rw (e, s.first, joined_left (r.steps + 0) (omega arith), e', r.last) refl
  ]

  left_behind : (a : ℕ) → a ≤ r.steps → D i (r.qubit a) ≤ D i K + D K (r.qubit a)
  left_behind a ha = omega (arith, r.behind a ha, r.shortest)

  -- The way from a qubit on the left part is improved.
  left_before : (a : ℕ) → a < r.steps → D (r.qubit a) K + D K j < D (r.qubit a) j
  left_before a ha = elim (lt_cases 0 a) [
    | inl pos ↦ omega (
      arith,
      lt,
      r.shortest,
      h.triangle (r.qubit a) i j (r.between a pos ha) (r.inside a (omega arith)) hi hj,
      r.behind a (omega arith),
      r.before a (omega arith),
    )
    | inr none ↦ let e : a ≡ 0 = omega arith in rw (e, r.first) lt
  ]

  left_ahead : (a : ℕ) → a < r.steps → D j K + D K (r.qubit a) < D j (r.qubit a)
  left_ahead a ha =
      let inn = r.inside a (omega arith) in
      omega (
        arith,
        left_before a ha,
        h.symmetric j (r.qubit a) hj inn,
        h.symmetric (r.qubit a) K inn inside,
        h.symmetric j K hj inside,
      )

  -- And so is the way to a qubit on the right part.
  right_behind : (b : ℕ) → 0 < b → b ≤ s.steps → D i K + D K (s.qubit b) < D i (s.qubit b)
  right_behind b pos hb = elim (lt_cases b s.steps) [
    | inl low ↦ omega (
      arith,
      lt,
      s.shortest,
      h.triangle (s.qubit b) i j (s.between b pos low) (s.inside b hb) hi hj,
      s.behind b hb,
      s.before b hb,
    )
    | inr high ↦ let e : b ≡ s.steps = omega arith in rw (e, s.last) lt
  ]

  right_before : (b : ℕ) → b ≤ s.steps → D (s.qubit b) j ≤ D (s.qubit b) K + D K j
  right_before b hb = omega (arith, s.before b hb, s.shortest)

  right_ahead : (b : ℕ) → b ≤ s.steps → D j (s.qubit b) ≤ D j K + D K (s.qubit b)
  right_ahead b hb =
      let inn = s.inside b hb in
      omega (
        arith,
        right_before b hb,
        h.symmetric j (s.qubit b) hj inn,
        h.symmetric (s.qubit b) K inn inside,
        h.symmetric j K hj inside,
      )

  -- Every place on the way lies on one of the two parts.
  half : (a : ℕ) → (a < r.steps) ⊎ ((b : ℕ) × (a ≡ r.steps + b))
  half a = elim (lt_cases a r.steps) [
    | inl low ↦ inl low
    | inr high ↦ inr (a - r.steps, omega arith)
  ]

  joined_inside : (a : ℕ) → a ≤ r.steps + s.steps → joined a < n
  joined_inside a ha = elim (half a) [
    | inl low ↦ rw (joined_left a (omega arith)) (r.inside a (omega arith))
    | inr (b, e) ↦ rw (e, joined_right b) (s.inside b (omega arith))
  ]

  joined_behind : (a : ℕ) → a ≤ r.steps + s.steps → D' i (joined a) ≡ a
  joined_behind a ha = elim (lt_cases r.steps a) [
    | inl high ↦
        let b = a - r.steps in
        let e : a ≡ r.steps + b = omega arith in
        let new =
          improved st i (s.qubit b) hi (s.inside b (omega arith))
            (right_behind b (omega arith) (omega arith)) in
        ap (λ x. D' i (joined x)) e
        ∙ rw (joined_right b, new.0) (omega (arith, r.shortest, s.behind b (omega arith)))
    | inr low ↦
        rw (joined_left a low, (kept st i (r.qubit a) hi (r.inside a low) (left_behind a low)).0)
          (r.behind a low)
  ]

  joined_before : (a : ℕ) → a ≤ r.steps + s.steps → a + D' (joined a) j ≡ r.steps + s.steps
  joined_before a ha = elim (half a) [
    | inl low ↦
        let inn = r.inside a (omega arith) in
        rw
          (
            joined_left a (omega arith),
            reached st (r.qubit a) j inn hj (omega (arith, left_before a low)),
          )
          (omega (arith, r.before a (omega arith), s.shortest))
    | inr (b, e) ↦
        let inn = s.inside b (omega arith) in
        rw (e, joined_right b, (kept st (s.qubit b) j inn hj (right_before b (omega arith))).0)
          (omega (arith, s.before b (omega arith)))
  ]

  joined_between : (a : ℕ) → 0 < a → a < r.steps + s.steps → joined a < K + 1
  joined_between a pos ha = elim (half a) [
    | inl low ↦ rw (joined_left a (omega arith)) (omega (arith, r.between a pos low))
    | inr (b, e) ↦ elim (lt_cases 0 b) [
      | inl some ↦ rw (e, joined_right b) (omega (arith, s.between b some (omega arith)))
      | inr none ↦ let e' : b ≡ 0 = omega arith in rw (e, joined_right b, e', s.first) (omega arith)
    ]
  ]

  -- The next place on the right part.
  joined_next : (b : ℕ) → joined (r.steps + b + 1) ≡ s.qubit (b + 1)
  joined_next b =
      let e : r.steps + b + 1 ≡ r.steps + (b + 1) = omega arith in rw e (joined_right (b + 1))

  joined_couples : (a : ℕ) → a < r.steps + s.steps → coupled (joined a) (joined (a + 1)) ≡ true
  joined_couples a ha = elim (half a) [
    | inl low ↦
        rw (joined_left a (omega arith), joined_left (a + 1) (omega arith)) (r.couples a low)
    | inr (b, e) ↦ rw (e, joined_right b, joined_next b) (s.couples b (omega arith))
  ]

  joined_back : (a : ℕ) → a < r.steps + s.steps → P' i (joined (a + 1)) ≡ joined a
  joined_back a ha = elim (half a) [
    | inl low ↦
        let same =
          kept st i (r.qubit (a + 1)) hi (r.inside (a + 1) (omega arith))
            (left_behind (a + 1) (omega arith)) in
        rw (joined_left a (omega arith), joined_left (a + 1) (omega arith)) (same.1 ∙ r.back a low)
    | inr (b, e) ↦
        let new =
          improved st i (s.qubit (b + 1)) hi (s.inside (b + 1) (omega arith))
            (right_behind (b + 1) (omega arith) (omega arith)) in
        rw (e, joined_right b, joined_next b) (new.1 ∙ s.back b (omega arith))
  ]

  joined_ahead : (a : ℕ) → a < r.steps + s.steps → P' j (joined a) ≡ joined (a + 1)
  joined_ahead a ha = elim (half a) [
    | inl low ↦
        let new = improved st j (r.qubit a) hj (r.inside a (omega arith)) (left_ahead a low) in
        rw (joined_left a (omega arith), joined_left (a + 1) (omega arith)) (new.1 ∙ r.ahead a low)
    | inr (b, e) ↦
        let same =
          kept st j (s.qubit b) hj (s.inside b (omega arith)) (right_ahead b (omega arith)) in
        rw (e, joined_right b, joined_next b) (same.1 ∙ s.ahead b (omega arith))
  ]

  pub new-Route : Route n coupled (K + 1) D' P' i j
  new-Route = record {
    steps = r.steps + s.steps;
    qubit = joined;
    shortest = (improved st i j hi hj lt).0 ∙ ap₂ ◌+◌ r.shortest s.shortest;
    first = joined_left 0 (omega arith) ∙ r.first;
    last = joined_right s.steps ∙ s.last;
    inside = joined_inside;
    behind = joined_behind;
    before = joined_before;
    between = joined_between;
    couples = joined_couples;
    back = joined_back;
    ahead = joined_ahead;
  }
