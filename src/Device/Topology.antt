-- ===== src/Device/Topology.antt =====
-- class Topology (src/device/device.{hpp,cpp}): the distances and the predecessors between the qubits of a
-- device, and `floyd_warshall`, which computes them in place.
pub mod Phase
pub mod Routes
pub mod Direct
pub mod Detour
pub mod Extension
pub mod Weights
pub mod Initial
pub mod Start
pub mod First
pub mod Shortest
use qsyn.Prelude.{
  ℕ, ◌+◌, ◌==◌, ltb, not, ◌&&◌, List, [], ◌∷◌, map, get_or, set, if◌then◌else◌, for_range, Grid,
  entry, write, resize, for_cells,
}
use qsyn.Device.Qubit.{PhysicalQubit, physical_qubit, max_qubit_id}

-- `default_max_dist`, the initial value of `_max_dist`, which nothing changes.
abbrev pub max_dist : ℕ
max_dist = 100_000

pub record Topology : Type 0 where
  pub num_qubit : ℕ
  pub predecessor : Grid
  pub distance : Grid

abbrev pub get_predecessor : Topology → ℕ → ℕ → ℕ
get_predecessor t dest src = entry t.predecessor dest src

abbrev pub clear_predecessor : Topology → Topology
clear_predecessor t = record t { predecessor = [] }

abbrev pub clear_distance : Topology → Topology
clear_distance t = record t { distance = [] }

abbrev pub resize_rows : ℕ → ℕ → Grid → Grid
resize_rows n d g = map (resize n d) (resize n [] g)

abbrev pub resize_to_num_qubit : Topology → Topology
resize_to_num_qubit t = record t {
  distance = resize_rows t.num_qubit 0 t.distance;
  predecessor = resize_rows t.num_qubit max_qubit_id t.predecessor;
}

abbrev pub qubit_at : List PhysicalQubit → ℕ → PhysicalQubit
qubit_at qubit_list i = get_or qubit_list i (physical_qubit max_qubit_id)

-- The inner loop of `_set_weight`: 1 at each adjacency of qubit `i`.
abbrev pub set_adjacencies : ℕ → List ℕ → Grid → Grid
set_adjacencies i [] g = g
set_adjacencies i (adj ∷ rest) g = set_adjacencies i rest (write g i adj 1)

unfoldable pub set_weight : ℕ → List PhysicalQubit → Grid → Grid
unfolding for_range write
set_weight n qubit_list g =
    for_range n 0 (λ i g. set_adjacencies i (qubit_at qubit_list i).adjacencies g) g

-- The body of the loops of `_init_predecessor_and_distance`.
abbrev pub init_cell : List PhysicalQubit → Grid → ℕ → ℕ → Topology → Topology
init_cell qubit_list adjacency_matrix i j t =
    let d = entry adjacency_matrix i j in
    record t {
      distance = write t.distance i j d;
      predecessor =
          if not (d == 0) && not (d == max_dist)
          then write t.predecessor i j (qubit_at qubit_list i).id
          else t.predecessor;
    }

unfoldable pub init_predecessor_and_distance : List PhysicalQubit → Grid → Topology → Topology
unfolding for_range resize entry write
init_predecessor_and_distance qubit_list adjacency_matrix t =
    for_cells t.num_qubit (init_cell qubit_list adjacency_matrix) (resize_to_num_qubit t)

-- The body of the three loops of `floyd_warshall`.
abbrev pub relax : ℕ → ℕ → ℕ → Topology → Topology
relax k i j t =
    let through = entry t.distance i k + entry t.distance k j in
    if ltb through (entry t.distance i j) && not (entry t.distance i k == max_dist)
    then record t {
      distance = write t.distance i j through;
      predecessor = write t.predecessor i j (entry t.predecessor k j);
    }
    else t

unfoldable pub relax_all : ℕ → ℕ → Topology → Topology
unfolding for_range entry write
relax_all n k t = for_cells n (relax k) t

unfoldable pub floyd_warshall : List PhysicalQubit → Grid → Topology → Topology
unfolding set_weight init_predecessor_and_distance relax_all for_range
floyd_warshall qubit_list adjacency_matrix t =
    let weights = set_weight t.num_qubit qubit_list adjacency_matrix in
    let start = init_predecessor_and_distance qubit_list weights t in
    for_range t.num_qubit 0 (relax_all t.num_qubit) start

-- The matrix that `Device::calculate_path` starts from: 0 on the diagonal, `default_max_dist` elsewhere.
abbrev pub initial_row : ℕ → ℕ → Grid → Grid
initial_row n i g =
    for_range n 0 (λ j g. if i == j then write g i j 0 else g)
      (set g i (resize n max_dist (get_or g i [])))

unfoldable pub initial_matrix : ℕ → Grid
unfolding for_range resize write
initial_matrix n = for_range n 0 (initial_row n) (resize n [] [])
