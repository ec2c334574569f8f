-- ===== src/Device/Qubit.antt =====
-- class PhysicalQubit (src/device/device.{hpp,cpp}): a qubit of a device, with the logical qubit that
-- stands on it, the time up to which it is busy and the marks of a search.
use qsyn.Prelude.{ℕ, Bool, true, false, ◌||◌, ◌==◌, ◌++◌, Option, none, List, [], ◌∷◌}

-- `max_qubit_id`, the greatest number of type `size_t`.
abbrev pub max_qubit_id : ℕ
max_qubit_id = 18_446_744_073_709_551_615

pub record PhysicalQubit : Type 0 where
  pub id : ℕ
  pub adjacencies : List ℕ
  pub logical_qubit : Option ℕ
  pub occupied_time : ℕ
  pub marked : Bool
  pub pred : ℕ
  pub cost : ℕ
  pub swap_time : ℕ
  pub source : Bool
  pub taken : Bool

-- `PhysicalQubit(id)`.
abbrev pub physical_qubit : ℕ → PhysicalQubit
physical_qubit id = record {
  id = id;
  adjacencies = [];
  logical_qubit = none;
  occupied_time = 0;
  marked = false;
  pred = 0;
  cost = 0;
  swap_time = 0;
  source = false;
  taken = false;
}

-- `dvlab::contains`.
abbrev pub elem : ℕ → List ℕ → Bool
elem x [] = false
elem x (y ∷ ys) = (y == x) || elem x ys

abbrev pub is_adjacency : PhysicalQubit → PhysicalQubit → Bool
is_adjacency q r = elem r.id q.adjacencies

abbrev pub push_adjacency : ℕ → PhysicalQubit → PhysicalQubit
push_adjacency adj q = record q { adjacencies = q.adjacencies ++ adj ∷ [] }

abbrev pub mark : Bool → ℕ → PhysicalQubit → PhysicalQubit
mark source pred q = record q { marked = true; source = source; pred = pred }

abbrev pub take_route : ℕ → ℕ → PhysicalQubit → PhysicalQubit
take_route cost swap_time q = record q { cost = cost; swap_time = swap_time; taken = true }

abbrev pub reset : PhysicalQubit → PhysicalQubit
reset q = record q { marked = false; taken = false; cost = q.occupied_time }
