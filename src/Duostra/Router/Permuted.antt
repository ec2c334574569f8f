-- ===== src/Duostra/Router/Permuted.antt =====
-- Gates only move logical qubits around: what runs on a device permutes them.
use qsyn.Prelude.{
  ℕ, ◌+◌, ◌<◌, ◌≡◌, ◌≢◌, refl, ◌∙◌, sym, ap, subst, ◌==◌, ==_iff, ==_false, Option, none, some,
  List, [], ◌∷◌, length, if◌then◌else◌, inl, inr, eq_cases, arith, bools_differ,
}
use qsyn.Device.State.{Device, Operation, apply_gate, occupy}
use qsyn.Device.Topology.Weights.{coupled, IsCoupling}
use qsyn.Duostra.Router.{GateInfo}
use qsyn.Device.Writes.{qubit_of}
use qsyn.Duostra.Router.Occupy.{
  IsSameMap, IsSameMap-refl, IsSameMap-trans, IsSwapped, apply_gate-swap, occupy_logical,
  occupy-IsSameMap,
}
use qsyn.Duostra.Router.Schedule.{Runs}
use qsyn.Duostra.Router.Stages.{coupled_same}

-- The logical qubit of each place is that of another place before, one to one over the `n` qubits.
pub record IsPermuted (n : ℕ) (d d' : Device) : Type 0 where
  pub origin : ℕ → ℕ
  pub target : ℕ → ℕ
  pub origin_inside : (k : ℕ) → k < n → origin k < n
  pub target_inside : (k : ℕ) → k < n → target k < n
  pub origin_target : (k : ℕ) → origin (target k) ≡ k
  pub target_origin : (k : ℕ) → target (origin k) ≡ k
  pub moved : (k : ℕ) → (qubit_of d' k).logical_qubit ≡ (qubit_of d (origin k)).logical_qubit

abbrev exchange : ℕ → ℕ → ℕ → ℕ
exchange i j k = if k == i then j else if k == j then i else k

exchange-exchange : (i j k : ℕ) → exchange i j (exchange i j k) ≡ k
exchange-exchange i j k = ground arith

pub IsPermuted-refl : (n : ℕ) (d : Device) → IsPermuted n d d
IsPermuted-refl n d = record {
  origin = λ k. k;
  target = λ k. k;
  origin_inside = λ k h. h;
  target_inside = λ k h. h;
  origin_target = λ k. refl;
  target_origin = λ k. refl;
  moved = λ k. refl;
}

pub IsPermuted-trans :
    {n : ℕ} {d e f : Device} → IsPermuted n d e → IsPermuted n e f → IsPermuted n d f
IsPermuted-trans h h' = record {
  origin = λ k. h.origin (h'.origin k);
  target = λ k. h'.target (h.target k);
  origin_inside = λ k hk. h.origin_inside (h'.origin k) (h'.origin_inside k hk);
  target_inside = λ k hk. h'.target_inside (h.target k) (h.target_inside k hk);
  origin_target = λ k. ap h.origin (h'.origin_target (h.target k)) ∙ h.origin_target k;
  target_origin = λ k. ap h'.target (h.target_origin (h'.origin k)) ∙ h'.target_origin k;
  moved = λ k. h'.moved k ∙ h.moved (h'.origin k);
}

swapped-IsPermuted :
    {n i j : ℕ} {d d' : Device} → i < n → j < n → IsSwapped i j d d' → IsPermuted n d d'
swapped-IsPermuted {i} {j} {d} {d'} hi hj h = record {
  origin = exchange i j;
  target = exchange i j;
  origin_inside = λ k hk. ground (arith, hi, hj, hk);
  target_inside = λ k hk. ground (arith, hi, hj, hk);
  origin_target = exchange-exchange i j;
  target_origin = exchange-exchange i j;
  moved = moved;
}
  where
    moved : (k : ℕ) → (qubit_of d' k).logical_qubit ≡ (qubit_of d (exchange i j k)).logical_qubit
    moved k = elim (eq_cases k i) [
      | inl e ↦ rw (e, (==_iff i i).1 refl) h.first
      | inr ni ↦ elim (eq_cases k j) [
        | inl e ↦ rw (==_false k i ni, e, (==_iff j j).1 refl) h.second
        | inr nj ↦ rw (==_false k i ni, ==_false k j nj) (h.others k ni nj)
      ]
    ]

device_or : Device → Option Device → Device
device_or d none = d
device_or d (some e) = e

-- What a gate on two different qubits leaves, whatever its operation.
gate-IsPermuted :
    {n : ℕ} (d d' : Device) (op : Operation) (i j time : ℕ)
    → length d.qubit_list ≡ n
    → i < n
    → j < n
    → i ≢ j
    → apply_gate (record { operation = op; qubits = i ∷ j ∷ [] }) time d ≡ some d'
    → IsPermuted n d d' × IsSameMap d d'
unfolding apply_gate device_or
gate-IsPermuted {n} d d' Operation.swap_gate i j time len hi hj apart e =
    let (e', ran, done) =
      apply_gate-swap d i j time (omega (arith, len)) (omega (arith, len)) apart in
    let same : e' ≡ d' = ap (device_or d) (sym ran ∙ e) in
    subst (λ f. IsPermuted n d f × IsSameMap d f) same
      (swapped-IsPermuted hi hj done, done.same_map)
gate-IsPermuted {n} d d' (Operation.other k) i j time len hi hj apart e =
    let hi' : i < length d.qubit_list = omega (arith, len) in
    let hj' : j < length d.qubit_list = omega (arith, len) in
    let same : occupy i j (time + 2) d ≡ d' = ap (device_or d) e in
    subst (λ f. IsPermuted n d f × IsSameMap d f) same
      (
        record {
          origin = λ k. k;
          target = λ k. k;
          origin_inside = λ k h. h;
          target_inside = λ k h. h;
          origin_target = λ k. refl;
          target_origin = λ k. refl;
          moved = occupy_logical d i j (time + 2) hi' hj';
        },
        occupy-IsSameMap d i j (time + 2) hi' hj',
      )

-- The device keeps its couplings.
pub IsCoupling-same :
    {n : ℕ} {d d' : Device}
    → IsSameMap d d'
    → IsCoupling n d.qubit_list
    → IsCoupling n d'.qubit_list
IsCoupling-same same h = record {
  at_id = λ i hi. same.same_id i ∙ h.at_id i hi;
  in_range = λ i j hi e. h.in_range i j hi (sym (coupled_same same i j) ∙ e);
  both_ways =
      λ i j hi hj. coupled_same same i j ∙ h.both_ways i j hi hj ∙ sym (coupled_same same j i);
  apart = λ i hi. coupled_same same i i ∙ h.apart i hi;
}

-- Gates that run one after the other on coupled qubits permute the logical qubits of a device and keep
-- everything else but the times.
pub Runs-IsPermuted :
    {n : ℕ} {d d' : Device} {ops : List GateInfo}
    → length d.qubit_list ≡ n
    → IsCoupling n d.qubit_list
    → Runs d ops d'
    → IsPermuted n d d' × IsSameMap d d'
Runs-IsPermuted {n} len cp (Runs.done d) = (IsPermuted-refl n d, IsSameMap-refl d)
Runs-IsPermuted {n} len cp (Runs.next d e f op ops can ran rest) =
    let hi : can.first < n = omega (arith, can.inside) in
    let hj = cp.in_range can.first can.second hi can.joined in
    let (moved, same) =
      gate-IsPermuted d e op.0.operation can.first can.second op.1.0 len hi hj apart (
        subst
          (λ qs. apply_gate (record { operation = op.0.operation; qubits = qs }) op.1.0 d ≡ some e)
          can.on_pair ran) in
    let (moved', same') =
      Runs-IsPermuted (omega (arith, same.same_length)) (IsCoupling-same same cp) rest in
    (IsPermuted-trans moved moved', IsSameMap-trans same same')
  where
    apart : can.first ≢ can.second
    apart p = bools_differ (
        sym (cp.apart can.first (omega (arith, can.inside)))
        ∙ ap (coupled d.qubit_list can.first) p
        ∙ can.joined)
