-- ===== src/Duostra/Router/Schedule.antt =====
-- Timed gates that a device can run one after the other.
use qsyn.Prelude.{
  ℕ, ◌+◌, ◌≤◌, ◌<◌, ◌≡◌, length, refl, Bool, true, some, List, [], ◌∷◌, ◌++◌, ◌&&◌, arith,
}
use qsyn.Device.State.{Device, get_delay, apply_gate, is_swap}
use qsyn.Device.Topology.Weights.{coupled}
use qsyn.Duostra.Router.{GateInfo}
use qsyn.Device.Writes.{qubit_of}

-- A gate on two coupled qubits that starts when both are free and takes its delay.
pub record CanRun (d : Device) (op : GateInfo) : Type 0 where
  pub first : ℕ
  pub second : ℕ
  pub on_pair : op.0.qubits ≡ first ∷ second ∷ []
  pub inside : first < length d.qubit_list
  pub joined : coupled d.qubit_list first second ≡ true
  pub first_free : (qubit_of d first).occupied_time ≤ op.1.0
  pub second_free : (qubit_of d second).occupied_time ≤ op.1.0
  pub takes : op.1.1 ≡ op.1.0 + get_delay op.0

-- The step relation: the gates run in their order, each by `apply_gate` at its start.
pub data Runs : Device → List GateInfo → Device → Type 0 where
  done : (d : Device) → Runs d [] d
  next :
      (d e f : Device) (op : GateInfo) (ops : List GateInfo)
      → CanRun d op
      → apply_gate op.0 op.1.0 d ≡ some e
      → Runs e ops f
      → Runs d (op ∷ ops) f

pub Runs-snoc :
    {d e f : Device} {ops : List GateInfo} (op : GateInfo)
    → Runs d ops e
    → CanRun e op
    → apply_gate op.0 op.1.0 e ≡ some f
    → Runs d (ops ++ op ∷ []) f
Runs-snoc op (Runs.done d) can runs = Runs.next _ _ _ op [] can runs (Runs.done _)
Runs-snoc op (Runs.next d e f op' ops can' runs' rest) can runs =
    Runs.next d e _ op' (ops ++ op ∷ []) can' runs' (Runs-snoc op rest can runs)

abbrev pub all_swaps : List GateInfo → Bool
all_swaps [] = true
all_swaps (op ∷ ops) = is_swap op.0.operation && all_swaps ops

pub all_swaps-snoc :
    (ops : List GateInfo) (op : GateInfo)
    → all_swaps ops ≡ true
    → is_swap op.0.operation ≡ true
    → all_swaps (ops ++ op ∷ []) ≡ true
all_swaps-snoc [] op h e = rw e refl
all_swaps-snoc (op' ∷ ops) op h e = ground (all_swaps-snoc ops op, arith)
