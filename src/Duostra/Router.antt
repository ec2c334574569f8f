-- ===== src/Duostra/Router.antt =====
-- class Router (src/duostra/router.{hpp,cpp}), with its routing along shortest paths.

pub mod Occupy
pub mod Schedule
pub mod Stages
pub mod Routing
pub mod Permuted
pub mod Assign
pub mod Tracks
pub mod Tracking
pub mod Assignment
pub mod Initialize
use qsyn.Prelude.{
  ℕ, zero, suc, ◌+◌, ◌/◌, Bool, true, false, ◌&&◌, ◌||◌, ◌==◌, ltb, Option, none, some, List, [],
  ◌∷◌, ◌++◌, map, length, get_or, set, if◌then◌else◌, ◌>>=◌, for_range, resize,
}
use qsyn.Device.Qubit.{PhysicalQubit, max_qubit_id, is_adjacency, reset}
use qsyn.Device.State.{
  Operation, swap_gate, QCirGate, Device, get_delay, on_qubit, set_occupied_time,
  get_next_swap_cost, apply_gate, mapping, calculate_path, get_path,
}
use qsyn.Device.Topology.{qubit_at}

pub data MinMaxOptionType : Type 0 where
  min : MinMaxOptionType
  max : MinMaxOptionType

-- A gate with the times at which it starts and ends.
abbrev pub GateInfo : Type 0
GateInfo = QCirGate × (ℕ × ℕ)

pub record Router : Type 0 where
  pub tie_breaking_strategy : MinMaxOptionType
  pub device : Device
  pub logical_to_physical : List ℕ
  pub apsp : Bool

-- The order of optional numbers: no value is below every value.
abbrev pub less_optional : Option ℕ → Option ℕ → Bool
less_optional none none = false
less_optional none (some b) = true
less_optional (some a) none = false
less_optional (some a) (some b) = ltb a b

abbrev pub is_min : MinMaxOptionType → Bool
is_min MinMaxOptionType.min = true
is_min MinMaxOptionType.max = false

abbrev pub later : ℕ → ℕ → ℕ
later a b = if ltb a b then b else a

abbrev pub earlier : ℕ → ℕ → ℕ
earlier a b = if ltb b a then b else a

-- `max_qubit_id` stands second for a gate on one qubit.
abbrev pub get_physical_qubits : Router → QCirGate → ℕ × ℕ
get_physical_qubits r gate = (
  get_or r.logical_to_physical (get_or gate.qubits 0 0) 0,
  if length gate.qubits == 2
      then get_or r.logical_to_physical (get_or gate.qubits 1 0) 0
      else max_qubit_id,
)

unfoldable pub is_executable : Router → QCirGate → Bool
is_executable r gate =
    let pair = get_physical_qubits r gate in
    if length gate.qubits == 1
    then true
    else is_adjacency (qubit_at r.device.qubit_list pair.0) (qubit_at r.device.qubit_list pair.1)

unfoldable pub execute_single : QCirGate → ℕ → Device → GateInfo × Device
execute_single gate q d =
    let start_time = (qubit_at d.qubit_list q).occupied_time in
    let end_time = start_time + get_delay gate in
    (
      (
        record { operation = gate.operation; qubits = q ∷ max_qubit_id ∷ [] },
        (start_time, end_time),
      ),
      on_qubit q (λ p. reset (set_occupied_time end_time p)) d,
    )

-- Whether the first qubit is the one to move in `apsp_routing`.
abbrev pub first_moves : MinMaxOptionType → ℕ → ℕ → PhysicalQubit → PhysicalQubit → Bool
first_moves strategy cost0 cost1 q0 q1 =
    ltb cost0 cost1
    || ((cost0 == cost1) && is_min strategy && less_optional q0.logical_qubit q1.logical_qubit)

abbrev pub swap_of : ℕ → ℕ → QCirGate
swap_of i j = record { operation = swap_gate; qubits = i ∷ j ∷ [] }

abbrev pub timed : QCirGate → ℕ → GateInfo
timed op time = (op, (time, time + get_delay op))

-- Where the loop of `apsp_routing` stands: the two qubits, the device and the swaps so far.
pub record Stage : Type 0 where
  pub at0 : ℕ
  pub at1 : ℕ
  pub device : Device
  pub operation_list : List GateInfo

-- A swap of a qubit with the next one on its way, recorded, and where the stage stands then.
abbrev pub swap_along : ℕ → ℕ → ℕ → ℕ → ℕ → Stage → Option Stage
swap_along from next time at0 at1 st = do
  d ← apply_gate (swap_of from next) time st.device
  some record {
    at0 = at0;
    at1 = at1;
    device = d;
    operation_list = st.operation_list ++ timed (swap_of from next) time ∷ [];
  }

-- The swap of the qubit that moves, with the next one and its time for either.
abbrev pub swap_first_or_second : MinMaxOptionType → ℕ × ℕ → ℕ × ℕ → Stage → Option Stage
swap_first_or_second strategy (next0, cost0) (next1, cost1) st =
    let q0 = qubit_at st.device.qubit_list st.at0 in
    let q1 = qubit_at st.device.qubit_list st.at1 in
    if first_moves strategy cost0 cost1 q0 q1
    then swap_along st.at0 next0 cost0 next0 st.at1 st
    else swap_along st.at1 next1 cost1 st.at0 next1 st

-- The body of the loop.
unfoldable pub swap_step : MinMaxOptionType → ℕ → ℕ → Stage → Option Stage
unfolding apply_gate get_next_swap_cost
swap_step strategy s0 s1 st = do
  first ← get_next_swap_cost st.device st.at0 s1
  second ← get_next_swap_cost st.device st.at1 s0
  swap_first_or_second strategy first second st

abbrev pub are_adjacent : Stage → Bool
are_adjacent st =
    is_adjacency (qubit_at st.device.qubit_list st.at0) (qubit_at st.device.qubit_list st.at1)

unfoldable pub swap_loop : ℕ → MinMaxOptionType → ℕ → ℕ → Stage → Option Stage
unfolding swap_step
swap_loop zero strategy s0 s1 st = none
swap_loop (suc fuel) strategy s0 s1 st = elim (are_adjacent st) [
  | true ↦ some st
  | false ↦ swap_step strategy s0 s1 st >>= λ next. swap_loop fuel strategy s0 s1 next
]

-- The assertion after the loop, from the second qubit to the first.
abbrev pub are_adjacent_back : Stage → Bool
are_adjacent_back st =
    is_adjacency (qubit_at st.device.qubit_list st.at1) (qubit_at st.device.qubit_list st.at0)

-- The gate itself, once its qubits are adjacent. `none` where the assertion that they are fails.
abbrev pub run_gate : QCirGate → Stage → Option (List GateInfo × Device)
run_gate gate st = do
  checked ← if are_adjacent_back st then some st else none
  d ←
      apply_gate (record { operation = gate.operation; qubits = st.at0 ∷ st.at1 ∷ [] }) gate_cost
        st.device
  some (
    st.operation_list
        ++ (
          record { operation = gate.operation; qubits = st.at0 ∷ st.at1 ∷ [] },
          (gate_cost, gate_cost + get_delay gate),
        )
          ∷ [],
    d,
  )
  where
    gate_cost : ℕ
    gate_cost =
        later (qubit_at st.device.qubit_list st.at0).occupied_time
          (qubit_at st.device.qubit_list st.at1).occupied_time

unfoldable pub apsp_routing :
    ℕ → MinMaxOptionType → QCirGate → ℕ → ℕ → Device → Option (List GateInfo × Device)
unfolding swap_loop apply_gate
apsp_routing fuel strategy gate s0 s1 d =
    swap_loop fuel strategy s0 s1 record { at0 = s0; at1 = s1; device = d; operation_list = [] }
    >>= λ st. run_gate gate st
