-- ===== src/Device/State.antt =====
-- class Device (src/device/device.{hpp,cpp}), and of the gates of src/qcir/qcir_gate.hpp what it reads.
use qsyn.Prelude.{
  ℕ, zero, suc, ◌+◌, Bool, true, false, ◌==◌, ltb, Option, none, some, List, [], ◌∷◌, map, length,
  get_or, set, if◌then◌else◌, ◌>>=◌,
}
use qsyn.Device.Qubit.{PhysicalQubit, physical_qubit, max_qubit_id, push_adjacency, is_adjacency}
use qsyn.Device.Topology.{
  Topology, qubit_at, get_predecessor, clear_predecessor, clear_distance, initial_matrix,
  floyd_warshall,
}

-- An operation is the swap or another one, by a number for its kind.
pub data Operation : Type 0 where
  swap_gate : Operation
  other : ℕ → Operation

pub record QCirGate : Type 0 where
  pub operation : Operation
  pub qubits : List ℕ

pub record Device : Type 0 where
  pub num_qubit : ℕ
  pub topology : Topology
  pub qubit_list : List PhysicalQubit

abbrev pub is_swap : Operation → Bool
is_swap swap_gate = true
is_swap (other k) = false

abbrev pub get_delay : QCirGate → ℕ
get_delay g =
    if is_swap g.operation
    then 6
    else if length g.qubits == 1
    then 1
    else if length g.qubits == 2
    then 2
    else 5

-- A write to the qubit that `get_physical_qubit` returns a reference to.
abbrev pub update_qubit :
    ℕ → (PhysicalQubit → PhysicalQubit) → List PhysicalQubit → List PhysicalQubit
update_qubit i f qs = set qs i (f (qubit_at qs i))

abbrev pub on_qubit : ℕ → (PhysicalQubit → PhysicalQubit) → Device → Device
on_qubit i f d = record d { qubit_list = update_qubit i f d.qubit_list }

abbrev pub set_occupied_time : ℕ → PhysicalQubit → PhysicalQubit
set_occupied_time t q = record q { occupied_time = t }

abbrev pub set_logical_qubit : Option ℕ → PhysicalQubit → PhysicalQubit
set_logical_qubit l q = record q { logical_qubit = l }

-- The index of the next qubit on the way to the target, and the time that both are free from. `none`
-- where the assertion that the two are adjacent fails.
unfoldable pub get_next_swap_cost : Device → ℕ → ℕ → Option (ℕ × ℕ)
get_next_swap_cost d source target =
    let next = get_predecessor d.topology target source in
    let at_source = (qubit_at d.qubit_list source).occupied_time in
    let at_next = (qubit_at d.qubit_list next).occupied_time in
    if is_adjacency (qubit_at d.qubit_list source) (qubit_at d.qubit_list next)
    then some (next, if ltb at_source at_next then at_next else at_source)
    else none

abbrev pub holds : ℕ → Option ℕ → Bool
holds id none = false
holds id (some l) = l == id

unfoldable pub physical_by_logical : ℕ → List PhysicalQubit → ℕ
physical_by_logical id [] = max_qubit_id
physical_by_logical id (q ∷ qs) =
    let rest = physical_by_logical id qs in if holds id q.logical_qubit then q.id else rest

abbrev pub get_physical_by_logical : Device → ℕ → ℕ
get_physical_by_logical d id = physical_by_logical id d.qubit_list

-- `add_adjacency` after the exchange that puts the smaller id first.
abbrev pub couple : ℕ → ℕ → Device → Device
couple a b d =
    let d' = on_qubit a (push_adjacency (qubit_at d.qubit_list b).id) d in
    on_qubit b (push_adjacency (qubit_at d'.qubit_list a).id) d'

abbrev pub add_adjacency : ℕ → ℕ → Device → Device
add_adjacency a b d = if ltb b a then couple b a d else couple a b d

-- The exchange of the logical qubits of two physical ones.
abbrev pub swap_logical : ℕ → ℕ → Device → Device
swap_logical i j d =
    let l = (qubit_at d.qubit_list i).logical_qubit in
    let d' = on_qubit i (set_logical_qubit (qubit_at d.qubit_list j).logical_qubit) d in
    on_qubit j (set_logical_qubit l) d'

abbrev pub occupy : ℕ → ℕ → ℕ → Device → Device
occupy i j t d = on_qubit j (set_occupied_time t) (on_qubit i (set_occupied_time t) d)

-- `none` where the assertion fails.
unfoldable pub apply_gate : QCirGate → ℕ → Device → Option Device
apply_gate g time_begin d =
    let q0 = get_or g.qubits 0 0 in
    let q1 = get_or g.qubits 1 0 in
    let until = time_begin + get_delay g in
    if is_swap g.operation
    then some (occupy q0 q1 until (swap_logical q0 q1 d))
    else if length g.qubits == 2
    then some (occupy q0 q1 until d)
    else none

abbrev pub mapping : Device → List (Option ℕ)
mapping d = map (λ q. q.logical_qubit) d.qubit_list

abbrev pub is_none : Option ℕ → Bool
is_none none = true
is_none (some l) = false

-- The loop of `place` from its counter on. `none` where the assertion that the physical qubit holds no
-- logical one fails.
abbrev pub place_from : ℕ → List ℕ → Device → Option Device
place_from i [] d = some d
place_from i (p ∷ assignment) d =
    let rest = place_from (i + 1) assignment (on_qubit p (set_logical_qubit (some i)) d) in
    if is_none (qubit_at d.qubit_list p).logical_qubit then rest else none

abbrev pub place : List ℕ → Device → Option Device
place assignment d = place_from 0 assignment d

unfoldable pub calculate_path : Device → Device
unfolding floyd_warshall initial_matrix
calculate_path d = record d {
  topology =
      floyd_warshall d.qubit_list (initial_matrix d.num_qubit)
        (clear_distance (clear_predecessor d.topology));
}

-- `_qubit_list.at`, which throws out of range.
abbrev pub qubit_or_throw : List PhysicalQubit → ℕ → Option PhysicalQubit
qubit_or_throw qs i = if ltb i (length qs) then some (qubit_at qs i) else none

-- The loop of `get_path`. It ends at the value that stands for no predecessor.
unfoldable pub path_loop : ℕ → Device → ℕ → ℕ → Option (List PhysicalQubit)
path_loop zero d dest at = none
path_loop (suc fuel) d dest at =
    let next = get_predecessor d.topology dest at in
    let rest = path_loop fuel d dest next in
    if next == max_qubit_id
    then some []
    else qubit_or_throw d.qubit_list next >>= λ q. rest >>= λ path. some (q ∷ path)

-- The second qubit of the path is made anew from its id.
unfoldable pub get_path : ℕ → Device → ℕ → ℕ → Option (List PhysicalQubit)
unfolding path_loop
get_path fuel d src dest = qubit_or_throw d.qubit_list src >>= λ q.
    let next = get_predecessor d.topology dest src in
    let rest = path_loop fuel d dest next in
    if src == dest then some (q ∷ []) else rest >>= λ path. some (q ∷ physical_qubit next ∷ path)
