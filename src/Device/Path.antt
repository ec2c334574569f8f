-- ===== src/Device/Path.antt =====
-- `calculate_path` makes `get_path` return shortest ways.
use qsyn.Prelude.{
  ℕ, zero, suc, ◌+◌, ◌≤◌, ◌<◌, ◌≡◌, refl, ◌∙◌, sym, ap, Bool, true, ◌-◌, ◌≢◌, lt_cases, ==_iff,
  ==_false, lt→ltb, Option, some, List, [], ◌∷◌, map, length, arith, entry, inl, inr, eq_cases,
}
use qsyn.Device.Qubit.{PhysicalQubit, physical_qubit, max_qubit_id}
use qsyn.Device.State.{Device, calculate_path, get_path, path_loop, qubit_or_throw}
use qsyn.Device.Topology.{max_dist, qubit_at}
use qsyn.Device.Topology.Routes.{Route, IsRouted}
use qsyn.Device.Topology.Shortest.{floyd_warshall-IsRouted}
use qsyn.Device.Topology.Weights.{coupled, IsCoupling}

-- What `read_device` makes: as many qubits as both numbers say, each at its id, with couplings that go
-- both ways, and fewer than the number that stands for no qubit.
pub record IsRead (d : Device) : Type 0 where
  pub same_number : d.num_qubit ≡ d.topology.num_qubit
  pub length_list : length d.qubit_list ≡ d.num_qubit
  pub few : d.num_qubit < max_qubit_id
  pub coupling : IsCoupling d.num_qubit d.qubit_list

-- A device whose distances and predecessors are computed.
pub record HasPaths (d : Device) : Type 0 where
  pub length_list : length d.qubit_list ≡ d.num_qubit
  pub few : d.num_qubit < max_qubit_id
  pub coupling : IsCoupling d.num_qubit d.qubit_list
  pub routed :
      IsRouted d.num_qubit
        (coupled d.qubit_list)
        d.num_qubit
        (entry d.topology.distance)
        (entry d.topology.predecessor)

pub calculate_path-HasPaths : (d : Device) → IsRead d → HasPaths (calculate_path d)
unfolding calculate_path
calculate_path-HasPaths d h = record {
  length_list = h.length_list;
  few = h.few;
  coupling = h.coupling;
  routed = rw h.same_number (floyd_warshall-IsRouted d.topology (rw h.same_number at h.coupling)).1;
}

-- A way from the first qubit over the listed ones to the last, along couplings.
abbrev pub Chain : (ℕ → ℕ → Bool) → ℕ → List ℕ → ℕ → Type 0
Chain adjacent i [] j = i ≡ j
Chain adjacent i (x ∷ xs) j = (adjacent i x ≡ true) × Chain adjacent x xs j

abbrev pub ids : List PhysicalQubit → List ℕ
ids qs = map (λ q. q.id) qs

module _ (d : Device) (h : HasPaths d) where
  abbrev pub D : ℕ → ℕ → ℕ
  D = entry d.topology.distance

  abbrev pub Way : ℕ → ℕ → Type 0
  Way i j =
      Route d.num_qubit (coupled d.qubit_list) d.num_qubit D (entry d.topology.predecessor) i j

  found : (i : ℕ) → i < d.num_qubit → qubit_or_throw d.qubit_list i ≡ some (qubit_at d.qubit_list i)
  found i hi = rw (lt→ltb i (length d.qubit_list) (omega (arith, h.length_list))) refl

  -- The rest of the path from a place on the way.
  Rest : ℕ → ℕ → ℕ → Option (List PhysicalQubit) → Type 0
  Rest i j left out =
      (path : List PhysicalQubit) × (out ≡ some path)
      × (length path ≡ left)
      × Chain (coupled d.qubit_list) i (ids path) j

  path_loop-Rest :
      {i j : ℕ} (r : Way i j) (fuel left a : ℕ)
      → j < d.num_qubit
      → a + left ≡ r.steps
      → left < fuel
      → Rest (r.qubit a) j left (path_loop fuel d j (r.qubit a))
  unfolding path_loop Rest
  path_loop-Rest r zero left a hj e low = absurd (omega arith)
  path_loop-Rest {j} r (suc fuel) zero a hj e low =
      let e' : a ≡ r.steps = omega arith in
      rw (e', r.last, h.routed.rooted j hj) ([], refl, refl, refl)
  path_loop-Rest r (suc fuel) (suc left) a hj e low =
      let inn = r.inside (a + 1) (omega arith) in
      let (path, out, len, chain) =
        path_loop-Rest r fuel left (a + 1) hj (omega arith) (omega arith) in
      rw
        (
          r.ahead a (omega arith),
          ==_false (r.qubit (a + 1)) max_qubit_id (λ p. absurd (omega (arith, h.few))),
          found (r.qubit (a + 1)) inn,
          out,
        )
        (
          qubit_at d.qubit_list (r.qubit (a + 1)) ∷ path,
          refl,
          ap suc len,
          rw (h.coupling.at_id (r.qubit (a + 1)) inn) (r.couples a (omega arith), chain),
        )

  -- Between qubits at a distance below the maximum, `get_path` ends with as much fuel as the distance, and
  -- returns a way along couplings from the one to the other that has as many steps as the distance.
  pub get_path-shortest :
      (fuel i j : ℕ)
      → i < d.num_qubit
      → j < d.num_qubit
      → D i j < max_dist
      → D i j ≤ fuel
      → (rest : List PhysicalQubit) × (get_path fuel d i j ≡ some (qubit_at d.qubit_list i ∷ rest))
        × (length rest ≡ D i j)
        × Chain (coupled d.qubit_list) i (ids rest) j
  unfolding get_path Rest
  get_path-shortest fuel i j hi hj low enough = elim (eq_cases i j) [
    | inl e ↦
        rw (found i hi, (==_iff i j).1 e)
          ([], refl, sym (ap (D i) (sym e) ∙ h.routed.loopless i hi), e)
    | inr apart ↦ onward apart (h.routed.route i j hi hj low)
  ]
    where
      onward :
          i ≢ j
          → Way i j
          → (rest : List PhysicalQubit) × (get_path fuel d i j
              ≡ some (qubit_at d.qubit_list i ∷ rest))
            × (length rest ≡ D i j)
            × Chain (coupled d.qubit_list) i (ids rest) j
      onward apart r = elim (lt_cases 0 r.steps) [
        | inl moves ↦
            let step = r.ahead 0 moves in
            let (path, out, len, chain) =
              path_loop-Rest r fuel (r.steps - 1) 1 hj (omega arith) (omega (arith, r.shortest)) in
            rw
              (
                found i hi,
                ==_false i j apart,
                ← ap (entry d.topology.predecessor j) r.first,
                step,
                out,
              )
              (
                physical_qubit (r.qubit 1) ∷ path,
                refl,
                omega (arith, r.shortest),
                ((rw r.first at (r.couples 0 moves)), chain),
              )
        | inr stays ↦
            let e : r.steps ≡ 0 = omega arith in
            absurd (apart (sym r.first ∙ sym (ap r.qubit e) ∙ r.last))
      ]
