-- ===== src/Duostra/Router/Assignment.antt =====
-- `assign_gate` runs every gate of a circuit on a connected device.
use qsyn.Prelude.{
  ℕ, ◌+◌, ◌≤◌, ◌<◌, ◌≡◌, ◌≢◌, refl, ◌∙◌, sym, ap, some, List, [], ◌∷◌, length, get_or, arith, entry,
}
use qsyn.Device.Qubit.{PhysicalQubit, reset}
use qsyn.Device.State.{Device, Operation, get_delay, on_qubit, set_occupied_time}
use qsyn.Device.Topology.{max_dist}
use qsyn.Duostra.Router.{Router, GateInfo, execute_single}
use qsyn.Duostra.Router.Assign.{assign_gate}
use qsyn.Device.Writes.{qubit_of, at_any}
use qsyn.Duostra.Router.Occupy.{on_qubit-IsSameMap}
use qsyn.Duostra.Router.Permuted.{Runs-IsPermuted}
use qsyn.Duostra.Router.Routing.{Routing, apsp_routing-Routing}
use qsyn.Duostra.Router.Tracking.{IsTracking, HasPaths-same, retracked-IsTracking}

-- There is a walk between any two qubits.
abbrev pub IsConnected : Device → Type 0
IsConnected d =
    (i j : ℕ) → i < d.num_qubit → j < d.num_qubit → entry d.topology.distance i j < max_dist

-- A write that keeps the couplings and the logical qubits keeps the table right.
written-IsTracking :
    (r : Router) (h : IsTracking r) (q : ℕ) (f : PhysicalQubit → PhysicalQubit)
    → q < r.device.num_qubit
    → ((p : PhysicalQubit) → ((f p).id ≡ p.id) × ((f p).adjacencies ≡ p.adjacencies))
    → ((p : PhysicalQubit) → (f p).logical_qubit ≡ p.logical_qubit)
    → IsTracking (record r { device = on_qubit q f r.device })
written-IsTracking r h q f hq keeps same =
    let inside : q < length r.device.qubit_list = omega (arith, h.paths.length_list) in
    let still = at_any (λ p. p.logical_qubit) r.device q f inside same in
    record {
      paths = HasPaths-same (on_qubit-IsSameMap r.device q f inside keeps) h.paths;
      sized = h.sized;
      placed = h.placed;
      there = λ l hl. still (get_or r.logical_to_physical l 0) ∙ h.there l hl;
      known = λ p l hp e. h.known p l hp (sym (still p) ∙ e);
    }

-- A gate on one qubit runs on the qubit where the table says that its logical qubit is, and the table
-- stays right.
pub assign_gate-single :
    (fuel : ℕ) (r : Router)
    → IsTracking r
    → (op : Operation) (a : ℕ) → a < r.device.num_qubit
    → (out : GateInfo) × (r' : Router) × (assign_gate fuel
          (record { operation = op; qubits = a ∷ [] })
          r
        ≡ some (out ∷ [], r'))
      × (out.0.operation ≡ op)
      × IsTracking r'
unfolding assign_gate execute_single
assign_gate-single fuel r h op a ha = (
  _,
  _,
  refl,
  refl,
  written-IsTracking r h place (λ p. reset (set_occupied_time until p)) (h.placed a ha)
      (λ p. (refl, refl)) (λ p. refl),
)
  where
    place : ℕ
    place = get_or r.logical_to_physical a 0

    until : ℕ
    until =
        (qubit_of r.device place).occupied_time
        + get_delay (record { operation = op; qubits = a ∷ [] })

-- On a connected device whose paths are computed, a router whose table is right assigns every gate on two
-- different logical qubits, with as much fuel as the maximal distance: the swaps and the gate that
-- `apsp_routing` gives for the places of the two, where they are those logical qubits. The table is
-- right again afterwards, and the device is still connected.
pub assign_gate-pair :
    (fuel : ℕ) (r : Router)
    → IsTracking r
    → IsConnected r.device
    → max_dist ≤ fuel
    → (op : Operation) (a b : ℕ) → a < r.device.num_qubit
    → b < r.device.num_qubit
    → a ≢ b
    → (ops : List GateInfo) × (r' : Router) × (assign_gate fuel
          (record { operation = op; qubits = a ∷ b ∷ [] })
          r
        ≡ some (ops, r'))
      × Routing r.device
          (record { operation = op; qubits = a ∷ b ∷ [] })
          (get_or r.logical_to_physical a 0)
          (get_or r.logical_to_physical b 0)
          ops
          r'.device
      × ((qubit_of r.device (get_or r.logical_to_physical a 0)).logical_qubit ≡ some a)
      × ((qubit_of r.device (get_or r.logical_to_physical b 0)).logical_qubit ≡ some b)
      × IsTracking r'
      × IsConnected r'.device
unfolding assign_gate
assign_gate-pair fuel r h near enough op a b ha hb apart =
    let (ops, d', ran, len, routing) =
      apsp_routing-Routing r.device h.paths (place a) (place b) (h.placed a ha) (h.placed b hb)
        differ (near (place a) (place b) (h.placed a ha) (h.placed b hb)) r.tie_breaking_strategy
        (record { operation = op; qubits = a ∷ b ∷ [] }) refl fuel
        (omega (arith, near (place a) (place b) (h.placed a ha) (h.placed b hb))) in
    let (moved, same) = Runs-IsPermuted h.paths.length_list h.paths.coupling routing.run in
    (
      ops,
      _,
      rw ran refl,
      routing,
      h.there a ha,
      h.there b hb,
      retracked-IsTracking r h d' same moved,
      λ i j hi hj.
          rw same.same_topology
            (near i j (omega (arith, same.same_number)) (omega (arith, same.same_number))),
    )
  where
    place : ℕ → ℕ
    place l = get_or r.logical_to_physical l 0

    differ : place a ≢ place b
    differ e =
        let both : some a ≡ some b =
          sym (h.there a ha) ∙ ap (λ k. (qubit_of r.device k).logical_qubit) e ∙ h.there b hb in
        absurd (apart (ground (both, arith)))
