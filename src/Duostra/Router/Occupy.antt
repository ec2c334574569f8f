-- ===== src/Duostra/Router/Occupy.antt =====
-- What `Device::apply_gate` does to the qubits of a device, and lists of gates that a device can run.
use qsyn.Prelude.{ℕ, ◌+◌, ◌<◌, ◌≡◌, ◌≢◌, refl, ◌∙◌, some, [], ◌∷◌, length, length-set, arith}
use qsyn.Device.Qubit.{PhysicalQubit}
use qsyn.Device.State.{
  Operation, Device, on_qubit, set_occupied_time, set_logical_qubit, swap_logical, occupy,
  apply_gate,
}
use qsyn.Device.Writes.{qubit_of, at_written, at_other, at_any}
use qsyn.Duostra.Router.{swap_of}

-- Two devices with the same couplings, distances and predecessors.
pub record IsSameMap (d d' : Device) : Type 0 where
  pub same_number : d'.num_qubit ≡ d.num_qubit
  pub same_topology : d'.topology ≡ d.topology
  pub same_length : length d'.qubit_list ≡ length d.qubit_list
  pub same_id : (k : ℕ) → (qubit_of d' k).id ≡ (qubit_of d k).id
  pub same_adjacencies : (k : ℕ) → (qubit_of d' k).adjacencies ≡ (qubit_of d k).adjacencies

pub on_qubit-IsSameMap :
    (d : Device) (i : ℕ) (f : PhysicalQubit → PhysicalQubit)
    → i < length d.qubit_list
    → ((q : PhysicalQubit) → ((f q).id ≡ q.id) × ((f q).adjacencies ≡ q.adjacencies))
    → IsSameMap d (on_qubit i f d)
on_qubit-IsSameMap d i f hi keeps = record {
  same_number = refl;
  same_topology = refl;
  same_length = length-set d.qubit_list i (f (qubit_of d i));
  same_id = at_any (λ q. q.id) d i f hi (λ q. (keeps q).0);
  same_adjacencies = at_any (λ q. q.adjacencies) d i f hi (λ q. (keeps q).1);
}

pub IsSameMap-trans : {d e f : Device} → IsSameMap d e → IsSameMap e f → IsSameMap d f
IsSameMap-trans h h' = record {
  same_number = h'.same_number ∙ h.same_number;
  same_topology = h'.same_topology ∙ h.same_topology;
  same_length = h'.same_length ∙ h.same_length;
  same_id = λ k. h'.same_id k ∙ h.same_id k;
  same_adjacencies = λ k. h'.same_adjacencies k ∙ h.same_adjacencies k;
}

pub IsSameMap-refl : (d : Device) → IsSameMap d d
IsSameMap-refl d = record {
  same_number = refl;
  same_topology = refl;
  same_length = refl;
  same_id = λ k. refl;
  same_adjacencies = λ k. refl;
}

module _ (d : Device) (i j until : ℕ) (hi : i < length d.qubit_list)
    (hj : j < length d.qubit_list) where
  in_length : (f : PhysicalQubit → PhysicalQubit) → j < length (on_qubit i f d).qubit_list
  in_length f = omega (arith, length-set d.qubit_list i (f (qubit_of d i)))

  pub occupy-IsSameMap : IsSameMap d (occupy i j until d)
  occupy-IsSameMap =
      IsSameMap-trans (on_qubit-IsSameMap d i (set_occupied_time until) hi (λ q. (refl, refl))) (
        on_qubit-IsSameMap (on_qubit i (set_occupied_time until) d) j (set_occupied_time until)
          (in_length (set_occupied_time until)) (λ q. (refl, refl)))

  pub occupy_logical :
      (k : ℕ) → (qubit_of (occupy i j until d) k).logical_qubit ≡ (qubit_of d k).logical_qubit
  occupy_logical k =
      at_any (λ q. q.logical_qubit) (on_qubit i (set_occupied_time until) d) j
        (set_occupied_time until) (in_length (set_occupied_time until)) (λ q. refl) k
      ∙ at_any (λ q. q.logical_qubit) d i (set_occupied_time until) hi (λ q. refl) k

module _ (d : Device) (i j : ℕ) (hi : i < length d.qubit_list) (hj : j < length d.qubit_list)
    (apart : i ≢ j) where
  abbrev there : Device
  there = on_qubit i (set_logical_qubit (qubit_of d j).logical_qubit) d

  there_length : j < length there.qubit_list
  there_length = in_length d i j 0 hi hj (set_logical_qubit (qubit_of d j).logical_qubit)

  swap_logical-IsSameMap : IsSameMap d (swap_logical i j d)
  swap_logical-IsSameMap =
      IsSameMap-trans
        (on_qubit-IsSameMap d i (set_logical_qubit (qubit_of d j).logical_qubit) hi
          (λ q. (refl, refl)))
        (on_qubit-IsSameMap there j (set_logical_qubit (qubit_of d i).logical_qubit) there_length
          (λ q. (refl, refl)))

  swap_logical_first :
      (qubit_of (swap_logical i j d) i).logical_qubit ≡ (qubit_of d j).logical_qubit
  swap_logical_first =
      at_other (λ q. q.logical_qubit) there j (set_logical_qubit (qubit_of d i).logical_qubit)
        there_length i apart
      ∙ at_written (λ q. q.logical_qubit) d i (set_logical_qubit (qubit_of d j).logical_qubit) hi

  swap_logical_second :
      (qubit_of (swap_logical i j d) j).logical_qubit ≡ (qubit_of d i).logical_qubit
  swap_logical_second =
      at_written (λ q. q.logical_qubit) there j (set_logical_qubit (qubit_of d i).logical_qubit)
        there_length

  swap_logical_other :
      (k : ℕ)
      → k ≢ i
      → k ≢ j
      → (qubit_of (swap_logical i j d) k).logical_qubit ≡ (qubit_of d k).logical_qubit
  swap_logical_other k ni nj =
      at_other (λ q. q.logical_qubit) there j (set_logical_qubit (qubit_of d i).logical_qubit)
        there_length k nj
      ∙ at_other (λ q. q.logical_qubit) d i (set_logical_qubit (qubit_of d j).logical_qubit) hi k ni

-- What a swap of two qubits leaves.
pub record IsSwapped (i j : ℕ) (d d' : Device) : Type 0 where
  pub same_map : IsSameMap d d'
  pub first : (qubit_of d' i).logical_qubit ≡ (qubit_of d j).logical_qubit
  pub second : (qubit_of d' j).logical_qubit ≡ (qubit_of d i).logical_qubit
  pub others :
      (k : ℕ) → k ≢ i → k ≢ j → (qubit_of d' k).logical_qubit ≡ (qubit_of d k).logical_qubit

pub apply_gate-swap :
    (d : Device) (i j time : ℕ)
    → i < length d.qubit_list
    → j < length d.qubit_list
    → i ≢ j
    → (d' : Device) × (apply_gate (swap_of i j) time d ≡ some d') × IsSwapped i j d d'
unfolding apply_gate
apply_gate-swap d i j time hi hj apart =
    let s = swap_logical i j d in
    let same = swap_logical-IsSameMap d i j hi hj apart in
    let hi' : i < length s.qubit_list = omega (arith, same.same_length) in
    let hj' : j < length s.qubit_list = omega (arith, same.same_length) in
    let keeps = occupy_logical s i j (time + 6) hi' hj' in
    (
      occupy i j (time + 6) s,
      refl,
      record {
        same_map = IsSameMap-trans same (occupy-IsSameMap s i j (time + 6) hi' hj');
        first = keeps i ∙ swap_logical_first d i j hi hj apart;
        second = keeps j ∙ swap_logical_second d i j hi hj apart;
        others = λ k ni nj. keeps k ∙ swap_logical_other d i j hi hj apart k ni nj;
      },
    )

-- A gate on two different qubits passes the assertion.
pub apply_gate-runs :
    (d : Device) (op : Operation) (i j time : ℕ)
    → i < length d.qubit_list
    → j < length d.qubit_list
    → i ≢ j
    → (d' : Device) × (apply_gate (record { operation = op; qubits = i ∷ j ∷ [] }) time d ≡ some d')
      × IsSameMap d d'
unfolding apply_gate
apply_gate-runs d Operation.swap_gate i j time hi hj apart =
    let (d', e, swapped) = apply_gate-swap d i j time hi hj apart in (d', e, swapped.same_map)
apply_gate-runs d (Operation.other k) i j time hi hj apart =
    (occupy i j (time + 2) d, refl, occupy-IsSameMap d i j (time + 2) hi hj)
