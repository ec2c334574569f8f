-- ===== src/Duostra/Router/Assign.antt =====
-- `Router::assign_gate` and its table of the places of the logical qubits, for a router along shortest
-- paths (src/duostra/router.cpp).
use qsyn.Prelude.{
  ℕ, ◌+◌, ◌/◌, ◌==◌, Option, none, some, List, [], ◌∷◌, length, set, if◌then◌else◌, ◌>>=◌, resize,
}
use qsyn.Device.State.{QCirGate, mapping, calculate_path, get_path}
use qsyn.Device.Topology.{qubit_at}
use qsyn.Duostra.Router.{
  Router, MinMaxOptionType, GateInfo, get_physical_qubits, is_min, later, earlier, execute_single,
  apsp_routing,
}

-- The loop over the mapping: the qubit of the device at which each logical qubit is.
abbrev pub track : ℕ → List (Option ℕ) → List ℕ → List ℕ
track i [] places = places
track i (none ∷ rest) places = track (i + 1) rest places
track i (some l ∷ rest) places = track (i + 1) rest (set places l i)

-- `_initialize`, where the source asserts that every qubit of the device has a logical qubit.
unfoldable pub initialize : Router → Router
unfolding calculate_path resize
initialize r =
    let d = if r.apsp then calculate_path r.device else r.device in
    record r {
      device = d;
      logical_to_physical = track 0 (mapping d) (resize d.num_qubit 0 r.logical_to_physical);
    }

unfoldable pub get_gate_cost : ℕ → Router → QCirGate → MinMaxOptionType → ℕ → Option ℕ
unfolding get_path
get_gate_cost fuel r gate min_max apsp_coeff =
    let pair = get_physical_qubits r gate in
    let t0 = (qubit_at r.device.qubit_list pair.0).occupied_time in
    let t1 = (qubit_at r.device.qubit_list pair.1).occupied_time in
    let avail = if is_min min_max then earlier t0 t1 else later t0 t1 in
    let path = get_path fuel r.device pair.0 pair.1 in
    if length gate.qubits == 1
    then some t0
    else if r.apsp
    then (path >>= λ qs. some (avail + length qs / apsp_coeff))
    else some avail

-- The gates that run for a gate, and the router afterwards.
unfoldable pub assign_gate : ℕ → QCirGate → Router → Option (List GateInfo × Router)
unfolding execute_single apsp_routing
assign_gate fuel gate r =
    let pair = get_physical_qubits r gate in
    if length gate.qubits == 1
    then (let out = execute_single gate pair.0 r.device in
        some (out.0 ∷ [], record r { device = out.1 }))
    else apsp_routing fuel r.tie_breaking_strategy gate pair.0 pair.1 r.device >>= λ out. some (
      out.0,
      record r {
        device = out.1;
        logical_to_physical = track 0 (mapping out.1) r.logical_to_physical;
      },
    )
