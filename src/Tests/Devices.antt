-- ===== src/Tests/Devices.antt =====
-- A device whose four qubits stand in a line, and a gate between its ends.
use qsyn.Prelude.{
  ℕ, zero, suc, ◌≤◌, ◌<◌, ◌≡◌, refl, true, false, ◌||◌, ◌&&◌, ◌==◌, Option, none, some, List, [],
  ◌∷◌, length, get_or, set, arith, entry,
}
use qsyn.Device.Path.{IsRead, HasPaths, calculate_path-HasPaths, get_path-shortest, Chain, ids, D}
use qsyn.Device.Coupling.{add_adjacency-IsCoupling}
use qsyn.Duostra.Placement.{place-IsPlaced, IsEmpty}
use qsyn.Duostra.Placer.{static_assignment, static_assignment-IsAssignment}
use qsyn.Device.Qubit.{PhysicalQubit, physical_qubit}
use qsyn.Device.State.{
  Device, QCirGate, other, add_adjacency, place, mapping, calculate_path, get_path,
  set_logical_qubit,
}
use qsyn.Device.Topology.{qubit_at, max_dist}
use qsyn.Device.Topology.Shortest.{floyd_warshall-shortest, Walk, solved}
use qsyn.Device.Topology.Weights.{coupled, IsCoupling}
use qsyn.Duostra.Router.Assign.{initialize, assign_gate}
use qsyn.Duostra.Router.Assignment.{IsConnected, assign_gate-single, assign_gate-pair}
use qsyn.Duostra.Router.Initialize.{IsPlaced, initialize-IsTracking}
use qsyn.Duostra.Router.Occupy.{IsSameMap}
use qsyn.Device.Writes.{qubit_of}
use qsyn.Duostra.Router.Tracking.{IsTracking}
use qsyn.Duostra.Router.{Router, MinMaxOptionType, GateInfo, apsp_routing, swap_of, timed}
use qsyn.Duostra.Router.Routing.{Routing, apsp_routing-Routing}

abbrev bare : Device
bare = record {
  num_qubit = 4;
  topology = record { num_qubit = 4; predecessor = []; distance = [] };
  qubit_list = physical_qubit 0 ∷ physical_qubit 1 ∷ physical_qubit 2 ∷ physical_qubit 3 ∷ [];
}

abbrev coupled_line : Device
coupled_line = add_adjacency 3 2 (add_adjacency 1 2 (add_adjacency 0 1 bare))

abbrev filled : ℕ → Device → Device
filled i d = record d {
  qubit_list = set d.qubit_list i (set_logical_qubit (some i) (qubit_at d.qubit_list i));
}

abbrev line : Device
line = filled 3 (filled 2 (filled 1 (filled 0 coupled_line)))

place-line : place (0 ∷ 1 ∷ 2 ∷ 3 ∷ []) coupled_line ≡ some line
place-line = refl

place_again : place (0 ∷ 1 ∷ 2 ∷ 3 ∷ []) line ≡ none
place_again = refl

mapping-line : mapping line ≡ some 0 ∷ some 1 ∷ some 2 ∷ some 3 ∷ []
mapping-line = refl

distance_line :
    (calculate_path line).topology.distance
    ≡ (0 ∷ 1 ∷ 2 ∷ 3 ∷ []) ∷ (1 ∷ 0 ∷ 1 ∷ 2 ∷ []) ∷ (2 ∷ 1 ∷ 0 ∷ 1 ∷ []) ∷ (3 ∷ 2 ∷ 1 ∷ 0 ∷ []) ∷ []
unfolding calculate_path
distance_line = refl

-- All four qubits, one by one.
each : (P : ℕ → Type 0) → P 0 → P 1 → P 2 → P 3 → (i : ℕ) → i < 4 → P i
each P a b c d zero h = a
each P a b c d (suc zero) h = b
each P a b c d (suc (suc zero)) h = c
each P a b c d (suc (suc (suc zero))) h = d
each P a b c d (suc (suc (suc (suc i)))) h = absurd (omega arith)

line-IsCoupling : IsCoupling 4 line.qubit_list
unfolding coupled
line-IsCoupling = record {
  at_id = each (λ i. (qubit_at line.qubit_list i).id ≡ i) refl refl refl refl;
  in_range = λ i j hi e.
      each (λ i. coupled line.qubit_list i j ≡ true → j < 4) (λ e. ground arith) (λ e. ground arith)
        (λ e. ground arith) (λ e. ground arith) i hi e;
  both_ways = λ i j hi hj.
      each (λ i. coupled line.qubit_list i j ≡ coupled line.qubit_list j i)
        (each (λ j. coupled line.qubit_list 0 j ≡ coupled line.qubit_list j 0) refl refl refl refl j
          hj)
        (each (λ j. coupled line.qubit_list 1 j ≡ coupled line.qubit_list j 1) refl refl refl refl j
          hj)
        (each (λ j. coupled line.qubit_list 2 j ≡ coupled line.qubit_list j 2) refl refl refl refl j
          hj)
        (each (λ j. coupled line.qubit_list 3 j ≡ coupled line.qubit_list j 3) refl refl refl refl j
          hj)
        i hi;
  apart = each (λ i. coupled line.qubit_list i i ≡ false) refl refl refl refl;
}

line-IsRead : IsRead line
line-IsRead = record {
  same_number = refl;
  length_list = refl;
  few = omega arith;
  coupling = line-IsCoupling;
}

solved_line : HasPaths (calculate_path line)
solved_line = calculate_path-HasPaths line line-IsRead

cx_far : QCirGate
cx_far = record { operation = other 1; qubits = 0 ∷ 3 ∷ [] }

operations : Option (List GateInfo × Device) → List GateInfo
operations none = []
operations (some (ops, d)) = ops

-- A swap from either end, as the second qubit moves when the costs agree and the first when they do not,
-- and the gate on the two qubits in the middle.
routed_line :
    operations (apsp_routing 3 MinMaxOptionType.max cx_far 0 3 (calculate_path line))
    ≡ timed (swap_of 3 2) 0
      ∷ timed (swap_of 0 1) 0
      ∷ (record { operation = other 1; qubits = 1 ∷ 2 ∷ [] }, (6, 8))
      ∷ []
unfolding apsp_routing calculate_path cx_far operations
routed_line = refl

floyd_warshall-shortest_example :
    ((l : ℕ)
      → Walk 4 (coupled line.qubit_list) 0 3 l
      → entry (solved line.qubit_list line.topology).distance 0 3 ≤ l)
    × (entry (solved line.qubit_list line.topology).distance 0 3 < max_dist
        → Walk 4
            (coupled line.qubit_list)
            0
            3
            (entry (solved line.qubit_list line.topology).distance 0 3))
floyd_warshall-shortest_example =
    floyd_warshall-shortest line.topology line-IsCoupling 0 3 (omega arith) (omega arith)

distance_ends : D (calculate_path line) solved_line 0 3 ≡ 3
unfolding calculate_path
distance_ends = refl

get_path-shortest_example :
    (rest : List PhysicalQubit) × (get_path 4 (calculate_path line) 0 3
      ≡ some (qubit_at (calculate_path line).qubit_list 0 ∷ rest))
    × (length rest ≡ D (calculate_path line) solved_line 0 3)
    × Chain (coupled (calculate_path line).qubit_list) 0 (ids rest) 3
unfolding calculate_path
get_path-shortest_example =
    get_path-shortest (calculate_path line) solved_line 4 0 3 (omega arith) (omega arith)
      (omega (arith, distance_ends)) (omega (arith, distance_ends))

apsp_routing-Routing_example :
    (ops : List GateInfo) × (d' : Device) × (apsp_routing 3 MinMaxOptionType.max cx_far 0 3
        (calculate_path line)
      ≡ some (ops, d'))
    × (length ops ≡ D (calculate_path line) solved_line 0 3)
    × Routing (calculate_path line) cx_far 0 3 ops d'
unfolding cx_far calculate_path
apsp_routing-Routing_example =
    apsp_routing-Routing (calculate_path line) solved_line 0 3 (omega arith) (omega arith)
      (λ e. absurd (omega (arith, e))) (omega (arith, distance_ends)) MinMaxOptionType.max cx_far
      refl 3 (omega (arith, distance_ends))

line_router : Router
line_router = record {
  tie_breaking_strategy = MinMaxOptionType.max;
  device = line;
  logical_to_physical = [];
  apsp = true;
}

line-IsPlaced : IsPlaced line
line-IsPlaced = record {
  logical_at = λ p. p;
  place_of = λ l. l;
  at_inside = λ p h. h;
  of_inside = λ l h. h;
  back = λ l h. refl;
  forth = λ p h. refl;
  stands = each (λ p. (qubit_of line p).logical_qubit ≡ some p) refl refl refl refl;
}

initialize-IsTracking_example : IsTracking (initialize line_router)
unfolding line_router
initialize-IsTracking_example = initialize-IsTracking line_router refl line-IsRead line-IsPlaced

line-IsConnected : IsConnected (initialize line_router).device
unfolding line_router initialize calculate_path
line-IsConnected i j hi hj =
    each (λ i. entry (calculate_path line).topology.distance i j < max_dist)
      (each (λ j. entry (calculate_path line).topology.distance 0 j < max_dist) (omega arith)
        (omega arith) (omega arith) (omega arith) j hj)
      (each (λ j. entry (calculate_path line).topology.distance 1 j < max_dist) (omega arith)
        (omega arith) (omega arith) (omega arith) j hj)
      (each (λ j. entry (calculate_path line).topology.distance 2 j < max_dist) (omega arith)
        (omega arith) (omega arith) (omega arith) j hj)
      (each (λ j. entry (calculate_path line).topology.distance 3 j < max_dist) (omega arith)
        (omega arith) (omega arith) (omega arith) j hj)
      i hi

assign_gate-single_example :
    (out : GateInfo) × (r' : Router) × (assign_gate 0
        (record { operation = other 2; qubits = 1 ∷ [] })
        (initialize line_router)
      ≡ some (out ∷ [], r'))
    × (out.0.operation ≡ other 2)
    × IsTracking r'
unfolding line_router initialize calculate_path
assign_gate-single_example =
    assign_gate-single 0 (initialize line_router) initialize-IsTracking_example (other 2) 1
      (omega arith)

assign_gate-pair_example :
    (ops : List GateInfo) × (r' : Router) × (assign_gate 100_000
        (record { operation = other 1; qubits = 0 ∷ 3 ∷ [] })
        (initialize line_router)
      ≡ some (ops, r'))
    × Routing
        (initialize line_router).device
        (record { operation = other 1; qubits = 0 ∷ 3 ∷ [] })
        (get_or (initialize line_router).logical_to_physical 0 0)
        (get_or (initialize line_router).logical_to_physical 3 0)
        ops
        r'.device
    × ((qubit_of
          (initialize line_router).device
          (get_or (initialize line_router).logical_to_physical 0 0)).logical_qubit
        ≡ some 0)
    × ((qubit_of
          (initialize line_router).device
          (get_or (initialize line_router).logical_to_physical 3 0)).logical_qubit
        ≡ some 3)
    × IsTracking r'
    × IsConnected r'.device
unfolding line_router initialize calculate_path
assign_gate-pair_example =
    assign_gate-pair 100_000 (initialize line_router) initialize-IsTracking_example line-IsConnected
      (omega arith) (other 1) 0 3 (omega arith) (omega arith) (λ e. absurd (omega (arith, e)))

bare-IsCoupling : IsCoupling 4 bare.qubit_list
unfolding coupled
bare-IsCoupling = record {
  at_id = each (λ i. (qubit_at bare.qubit_list i).id ≡ i) refl refl refl refl;
  in_range = λ i j hi e.
      each (λ i. coupled bare.qubit_list i j ≡ true → j < 4) (λ e. ground arith) (λ e. ground arith)
        (λ e. ground arith) (λ e. ground arith) i hi e;
  both_ways = λ i j hi hj.
      each (λ i. coupled bare.qubit_list i j ≡ coupled bare.qubit_list j i)
        (each (λ j. coupled bare.qubit_list 0 j ≡ coupled bare.qubit_list j 0) refl refl refl refl j
          hj)
        (each (λ j. coupled bare.qubit_list 1 j ≡ coupled bare.qubit_list j 1) refl refl refl refl j
          hj)
        (each (λ j. coupled bare.qubit_list 2 j ≡ coupled bare.qubit_list j 2) refl refl refl refl j
          hj)
        (each (λ j. coupled bare.qubit_list 3 j ≡ coupled bare.qubit_list j 3) refl refl refl refl j
          hj)
        i hi;
  apart = each (λ i. coupled bare.qubit_list i i ≡ false) refl refl refl refl;
}

add_adjacency-IsCoupling_example :
    IsCoupling 4 (add_adjacency 2 0 bare).qubit_list
    × ((i j : ℕ)
        → coupled (add_adjacency 2 0 bare).qubit_list i j
          ≡ (coupled bare.qubit_list i j || (((i == 2) && (0 == j)) || ((i == 0) && (2 == j)))))
add_adjacency-IsCoupling_example =
    add_adjacency-IsCoupling bare 4 2 0 refl bare-IsCoupling (omega arith) (omega arith)
      (λ e. absurd (omega (arith, e)))

bare-IsRead : IsRead bare
bare-IsRead = record {
  same_number = refl;
  length_list = refl;
  few = line-IsRead.few;
  coupling = bare-IsCoupling;
}

bare-IsEmpty : IsEmpty bare
unfolding IsEmpty
bare-IsEmpty = each (λ p. (qubit_of bare p).logical_qubit ≡ none) refl refl refl refl

place-IsPlaced_example :
    (d' : Device) × (place (static_assignment bare) bare ≡ some d')
    × ((l : ℕ) → l < 4 → (qubit_of d' (get_or (static_assignment bare) l 0)).logical_qubit ≡ some l)
    × IsSameMap bare d'
    × IsPlaced d'
    × IsRead d'
place-IsPlaced_example =
    place-IsPlaced bare (static_assignment bare) bare-IsRead bare-IsEmpty
      (static_assignment-IsAssignment bare)
