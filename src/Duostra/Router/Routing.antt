-- ===== src/Duostra/Router/Routing.antt =====
-- `apsp_routing` brings the qubits of a gate together and runs it.
use qsyn.Prelude.{
  ℕ, zero, suc, ◌+◌, ◌-◌, ◌≤◌, ◌<◌, ◌≡◌, ◌≢◌, refl, ◌∙◌, sym, ap, Bool, true, false, Option, some,
  List, [], ◌∷◌, ◌++◌, length, length-append, arith, ◌⊎◌, inl, inr, Bool-cases, if◌then◌else◌,
  lt_cases, bools_differ,
}
use qsyn.Device.Path.{HasPaths, Way, D}
use qsyn.Device.State.{Device, QCirGate, get_delay, get_next_swap_cost}
use qsyn.Device.Topology.{get_predecessor, max_dist}
use qsyn.Device.Topology.Weights.{coupled}
use qsyn.Duostra.Router.{
  MinMaxOptionType, GateInfo, Stage, later, swap_step, swap_loop, are_adjacent, run_gate,
  apsp_routing,
}
use qsyn.Device.Writes.{qubit_of}
use qsyn.Duostra.Router.Occupy.{IsSameMap, IsSameMap-refl, IsSameMap-trans, apply_gate-runs}
use qsyn.Duostra.Router.Schedule.{CanRun, Runs, Runs-snoc, all_swaps}
use qsyn.Duostra.Router.Stages.{
  OnWay, adjacent_lem, coupled_next, first_step, second_step, coupled_same, distinct,
  is_adjacency-coupled,
}

module _ (d : Device) (h : HasPaths d) {s0 s1 : ℕ} (hs0 : s0 < d.num_qubit) (hs1 : s1 < d.num_qubit)
    (r : Way d h s0 s1) (strategy : MinMaxOptionType) where
  -- The next qubit on the way of either.
  next_first :
      {a b : ℕ} {st : Stage}
      → OnWay d h hs0 hs1 r a b st
      → get_predecessor st.device.topology s1 (r.qubit a) ≡ r.qubit (a + 1)
  next_first {a} {b} w =
      ap (λ t. get_predecessor t s1 (r.qubit a)) w.same.same_topology
      ∙ r.ahead a (omega (arith, w.ordered, w.on_way))

  next_second :
      {a b : ℕ} {st : Stage}
      → OnWay d h hs0 hs1 r a (b + 1) st
      → get_predecessor st.device.topology s0 (r.qubit (b + 1)) ≡ r.qubit b
  next_second {a} {b} w =
      ap (λ t. get_predecessor t s0 (r.qubit (b + 1))) w.same.same_topology
      ∙ r.back b (omega (arith, w.on_way))

  abbrev busy : Stage → ℕ → ℕ
  busy st k = (qubit_of st.device k).occupied_time

  -- The two asserted steps, with their times.
  cost_first :
      {a b : ℕ} {st : Stage}
      → OnWay d h hs0 hs1 r a b st
      → get_next_swap_cost st.device st.at0 s1
        ≡ some (r.qubit (a + 1), later (busy st (r.qubit a)) (busy st (r.qubit (a + 1))))
  unfolding get_next_swap_cost
  cost_first {a} {b} w =
      rw
        (
          w.at_first,
          next_first w,
          is_adjacency-coupled d h hs0 hs1 r w (r.qubit a) (r.qubit (a + 1))
              (r.inside (a + 1) (omega (arith, w.ordered, w.on_way)))
              (r.couples a (omega (arith, w.ordered, w.on_way))),
        )
        refl

  cost_second :
      {a b : ℕ} {st : Stage}
      → OnWay d h hs0 hs1 r a (b + 1) st
      → get_next_swap_cost st.device st.at1 s0
        ≡ some (r.qubit b, later (busy st (r.qubit (b + 1))) (busy st (r.qubit b)))
  unfolding get_next_swap_cost
  cost_second {a} {b} w =
      let hb = r.inside b (omega (arith, w.on_way)) in
      rw
        (
          w.at_second,
          next_second w,
          is_adjacency-coupled d h hs0 hs1 r w (r.qubit (b + 1)) (r.qubit b) hb (
              h.coupling.both_ways (r.qubit (b + 1)) (r.qubit b) (r.inside (b + 1) w.on_way) hb
              ∙ r.couples b (omega (arith, w.on_way))),
        )
        refl

  -- Either of two results with the property that fits it.
  either :
      {A B : Stage → Type 0} (test : Bool) (left right : Option Stage)
      → ((st' : Stage) × (left ≡ some st') × A st')
      → ((st' : Stage) × (right ≡ some st') × B st')
      → (st' : Stage) × ((if test then left else right) ≡ some st') × (A st' ⊎ B st')
  either true left right (st', e, p) q = (st', e, inl p)
  either false left right p (st', e, q) = (st', e, inr q)

  swap_step-OnWay :
      {a b : ℕ} (st : Stage)
      → OnWay d h hs0 hs1 r a (b + 1) st
      → a < b
      → (st' : Stage) × (swap_step strategy s0 s1 st ≡ some st')
        × (OnWay d h hs0 hs1 r (a + 1) (b + 1) st' ⊎ OnWay d h hs0 hs1 r a b st')
  unfolding swap_step
  swap_step-OnWay {a} {b} st w lt =
      rw (cost_first w, cost_second w)
        (rw (w.at_first, w.at_second)
          (either _ _ _ (first_step d h hs0 hs1 r w (omega arith))
            (second_step d h hs0 hs1 r w lt)))

  swap_loop-OnWay :
      (fuel a b : ℕ) (st : Stage)
      → OnWay d h hs0 hs1 r a b st
      → b ≤ a + fuel
      → (st' : Stage) × (swap_loop fuel strategy s0 s1 st ≡ some st')
        × ((a' : ℕ) × OnWay d h hs0 hs1 r a' (a' + 1) st')
  unfolding swap_loop
  swap_loop-OnWay zero a b st w low = absurd (omega (arith, w.ordered))
  swap_loop-OnWay (suc fuel) a b st w low = elim (Bool-cases (are_adjacent st)) [
    | inl beside ↦
        let near =
          coupled_next d h hs0 hs1 r a b w.ordered w.on_way
            (sym (adjacent_lem d h hs0 hs1 r w) ∙ beside) in
        rw (swap_loop, beside) (st, refl, (a, rw (← near) w))
    | inr far ↦
        let e : b ≡ b - 1 + 1 = omega (arith, w.ordered) in
        let (next, ran, on) = swap_step-OnWay {a = a} {b = b - 1} st (rw e at w) (apart far) in
        rw (swap_loop, far, ran)
          (elim on [
            | inl w' ↦ swap_loop-OnWay fuel (a + 1) (b - 1 + 1) next w' (omega (arith, w.ordered))
            | inr w' ↦ swap_loop-OnWay fuel a (b - 1) next w' (omega (arith, w.ordered))
          ])
  ]
    where
      apart : are_adjacent st ≡ false → a < b - 1
      apart far = elim (lt_cases a (b - 1)) [
        | inl lt ↦ lt
        | inr le ↦
            let e : b ≡ a + 1 = omega (arith, w.ordered) in
            absurd (
              bools_differ (
                sym far
                ∙ adjacent_lem d h hs0 hs1 r w
                ∙ ap (λ x. coupled d.qubit_list (r.qubit a) (r.qubit x)) e
                ∙ r.couples a (omega (arith, w.ordered, w.on_way))))
      ]

-- The run of a gate between two qubits of a device: swaps that bring the logical qubits of the two places
-- next to each other, and then the gate on them, in that order.
pub record Routing (d : Device) (gate : QCirGate) (s0 s1 : ℕ) (ops : List GateInfo) (d' : Device)
    : Type 0 where
  pub moves : List GateInfo
  pub mid : Device
  pub at0 : ℕ
  pub at1 : ℕ
  pub times : ℕ × ℕ
  pub ends_with :
      ops ≡ moves ++ (record { operation = gate.operation; qubits = at0 ∷ at1 ∷ [] }, times) ∷ []
  pub only_swaps : all_swaps moves ≡ true
  pub moves_run : Runs d moves mid
  pub first_there : (qubit_of mid at0).logical_qubit ≡ (qubit_of d s0).logical_qubit
  pub second_there : (qubit_of mid at1).logical_qubit ≡ (qubit_of d s1).logical_qubit
  pub run : Runs d ops d'
  pub same_map : IsSameMap d d'

module _ (d : Device) (h : HasPaths d) (s0 s1 : ℕ) (hs0 : s0 < d.num_qubit) (hs1 : s1 < d.num_qubit)
    (apart : s0 ≢ s1) (near : D d h s0 s1 < max_dist) (strategy : MinMaxOptionType)
    (gate : QCirGate) (two : length gate.qubits ≡ 2) where
  start-OnWay :
      (r : Way d h s0 s1)
      → OnWay d h hs0 hs1 r 0 r.steps
          (record { at0 = s0; at1 = s1; device = d; operation_list = [] })
  start-OnWay r = record {
    ordered = elim (lt_cases 0 r.steps) [
      | inl pos ↦ pos
      | inr none ↦
          let e : r.steps ≡ 0 = omega arith in
          absurd (apart (sym r.first ∙ sym (ap r.qubit e) ∙ r.last))
    ];
    on_way = omega arith;
    at_first = sym r.first;
    at_second = sym r.last;
    same = IsSameMap-refl d;
    carries_first = rw r.first refl;
    carries_second = rw r.last refl;
    count = omega arith;
    swaps = refl;
    runs = Runs.done d;
  }

  same_delay :
      (i j : ℕ)
      → get_delay (record { operation = gate.operation; qubits = i ∷ j ∷ [] }) ≡ get_delay gate
  same_delay i j = rw two refl

  run_gate-Routing :
      (r : Way d h s0 s1) (a : ℕ) (st : Stage)
      → OnWay d h hs0 hs1 r a (a + 1) st
      → (ops : List GateInfo) × (d' : Device) × (run_gate gate st ≡ some (ops, d'))
        × (length ops ≡ D d h s0 s1)
        × Routing d gate s0 s1 ops d'
  run_gate-Routing r a st w =
      let i = r.qubit a in
      let j = r.qubit (a + 1) in
      let hi = r.inside a (omega (arith, w.on_way)) in
      let hj = r.inside (a + 1) w.on_way in
      let time = later (qubit_of st.device i).occupied_time (qubit_of st.device j).occupied_time in
      let op : GateInfo = (
        record { operation = gate.operation; qubits = i ∷ j ∷ [] },
        (time, time + get_delay gate),
      ) in
      let (d', e, same) =
        apply_gate-runs st.device gate.operation i j time
          (omega (arith, w.same.same_length, h.length_list))
          (omega (arith, w.same.same_length, h.length_list))
          (distinct d h hs0 hs1 r a (a + 1) w.ordered w.on_way) in
      let can : CanRun st.device op = record {
        first = i;
        second = j;
        on_pair = refl;
        inside = omega (arith, w.same.same_length, h.length_list);
        joined = coupled_same w.same i j ∙ r.couples a (omega (arith, w.on_way));
        first_free = ground arith;
        second_free = ground arith;
        takes = ap (◌+◌ time) (sym (same_delay i j));
      } in
      (
        st.operation_list ++ op ∷ [],
        d',
        rw
            (
              w.at_first,
              w.at_second,
              is_adjacency-coupled d h hs0 hs1 r w j i hi
                  (h.coupling.both_ways j i hj hi ∙ r.couples a (omega (arith, w.on_way))),
              e,
            )
            refl,
        omega (arith, length-append st.operation_list (op ∷ []), w.count, r.shortest),
        record {
          moves = st.operation_list;
          mid = st.device;
          at0 = i;
          at1 = j;
          times = (time, time + get_delay gate);
          ends_with = refl;
          only_swaps = w.swaps;
          moves_run = w.runs;
          first_there = w.carries_first;
          second_there = w.carries_second;
          run = Runs-snoc op w.runs can e;
          same_map = IsSameMap-trans w.same same;
        },
      )

  -- For a gate on two qubits between two different places at a distance below the maximum, on a device
  -- whose paths are computed, `apsp_routing` ends with as much fuel as the distance, and passes every
  -- assertion. What it returns are swaps, and then the gate on the two logical qubits of the places, in
  -- their order: as many operations as the distance, each on two coupled qubits, from a time at which both
  -- are free, and for its delay. Running them takes the device to the one that it leaves.
  pub apsp_routing-Routing :
      (fuel : ℕ)
      → D d h s0 s1 ≤ fuel
      → (ops : List GateInfo) × (d' : Device) × (apsp_routing fuel strategy gate s0 s1 d
          ≡ some (ops, d'))
        × (length ops ≡ D d h s0 s1)
        × Routing d gate s0 s1 ops d'
  unfolding apsp_routing
  apsp_routing-Routing fuel enough =
      let r = h.routed.route s0 s1 hs0 hs1 near in
      let (st, ran, (a, w)) =
        swap_loop-OnWay d h hs0 hs1 r strategy fuel 0 r.steps _ (start-OnWay r)
          (omega (arith, r.shortest)) in
      rw ran (run_gate-Routing r a st w)
