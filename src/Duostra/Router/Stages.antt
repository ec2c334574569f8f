-- ===== src/Duostra/Router/Stages.antt =====
-- The stages of `apsp_routing`: the two qubits stand on the shortest way between where they started.
use qsyn.Prelude.{
  ℕ, ◌+◌, ◌≤◌, ◌<◌, ◌≡◌, ◌≢◌, refl, ◌∙◌, sym, ap, true, some, [], ◌∷◌, ◌++◌, length, length-append,
  arith, entry,
}
use qsyn.Device.Path.{HasPaths, Way}
use qsyn.Device.Qubit.{elem, is_adjacency}
use qsyn.Device.State.{Device}
use qsyn.Device.Topology.Weights.{coupled}
use qsyn.Duostra.Router.{GateInfo, Stage, later, swap_of, timed, swap_along, are_adjacent}
use qsyn.Device.Writes.{qubit_of}
use qsyn.Duostra.Router.Occupy.{IsSameMap, IsSameMap-trans, IsSwapped, apply_gate-swap}
use qsyn.Duostra.Router.Schedule.{CanRun, Runs, Runs-snoc, all_swaps, all_swaps-snoc}

-- A device with the same map has the same couplings.
pub coupled_same :
    {d d' : Device}
    → IsSameMap d d'
    → (i j : ℕ) → coupled d'.qubit_list i j ≡ coupled d.qubit_list i j
unfolding coupled
coupled_same h i j = ap (elem j) (h.same_adjacencies i)

module _ (d : Device) (h : HasPaths d) {s0 s1 : ℕ} (hs0 : s0 < d.num_qubit) (hs1 : s1 < d.num_qubit)
    (r : Way d h s0 s1) where
  pub record OnWay (a b : ℕ) (st : Stage) : Type 0 where
    pub ordered : a < b
    pub on_way : b ≤ r.steps
    pub at_first : st.at0 ≡ r.qubit a
    pub at_second : st.at1 ≡ r.qubit b
    pub same : IsSameMap d st.device
    pub carries_first :
        (qubit_of st.device (r.qubit a)).logical_qubit ≡ (qubit_of d s0).logical_qubit
    pub carries_second :
        (qubit_of st.device (r.qubit b)).logical_qubit ≡ (qubit_of d s1).logical_qubit
    pub count : length st.operation_list + b ≡ r.steps + a
    pub swaps : all_swaps st.operation_list ≡ true
    pub runs : Runs d st.operation_list st.device

  -- The places of the way are different qubits.
  pub distinct : (a b : ℕ) → a < b → b ≤ r.steps → r.qubit a ≢ r.qubit b
  distinct a b lt le e =
      absurd (
        omega (arith, r.behind a (omega arith), r.behind b le, ap (entry d.topology.distance s0) e))

  -- They are coupled exactly if they are next to each other on the way.
  pub coupled_next :
      (a b : ℕ)
      → a < b
      → b ≤ r.steps
      → coupled d.qubit_list (r.qubit a) (r.qubit b) ≡ true
      → b ≡ a + 1
  coupled_next a b lt le e =
      let ha = r.inside a (omega arith) in
      let hb = r.inside b le in
      omega (
        arith,
        r.behind a (omega arith),
        r.behind b le,
        h.routed.adjacent (r.qubit a) (r.qubit b) ha hb e,
        h.routed.triangle (r.qubit a) s0 (r.qubit b) ha ha hs0 hb,
      )

  pub adjacent_lem :
      {a b : ℕ} {st : Stage}
      → OnWay a b st
      → are_adjacent st ≡ coupled d.qubit_list (r.qubit a) (r.qubit b)
  unfolding coupled
  adjacent_lem {a} {b} {st} w =
      rw
        (
          w.at_first,
          w.at_second,
          w.same.same_id (r.qubit b),
          h.coupling.at_id (r.qubit b) (r.inside b w.on_way),
        )
        (coupled_same w.same (r.qubit a) (r.qubit b))

  -- The assertions on two qubits of a stage hold where they are coupled.
  pub is_adjacency-coupled :
      {a b : ℕ} {st : Stage}
      → OnWay a b st
      → (i j : ℕ) → j < d.num_qubit
      → coupled d.qubit_list i j ≡ true
      → is_adjacency (qubit_of st.device i) (qubit_of st.device j) ≡ true
  unfolding coupled
  is_adjacency-coupled w i j hj e =
      rw (w.same.same_id j, h.coupling.at_id j hj) (coupled_same w.same i j ∙ e)

  -- A swap of two coupled qubits of a stage runs, from any time at which both are free.
  abbrev swapped : ℕ → ℕ → ℕ → ℕ → ℕ → Stage → Device → Stage
  swapped i j time at0 at1 st d' = record {
    at0 = at0;
    at1 = at1;
    device = d';
    operation_list = st.operation_list ++ timed (swap_of i j) time ∷ [];
  }

  swap_runs :
      (st : Stage) (i j time at0 at1 : ℕ)
      → IsSameMap d st.device
      → i < d.num_qubit
      → j < d.num_qubit
      → i ≢ j
      → coupled d.qubit_list i j ≡ true
      → (qubit_of st.device i).occupied_time ≤ time
      → (qubit_of st.device j).occupied_time ≤ time
      → Runs d st.operation_list st.device
      → (d' : Device) × (swap_along i j time at0 at1 st ≡ some (swapped i j time at0 at1 st d'))
        × IsSwapped i j st.device d'
        × Runs d (swapped i j time at0 at1 st d').operation_list d'
  swap_runs st i j time at0 at1 same hi hj apart joined free free' runs =
      let (d', e, done) =
        apply_gate-swap st.device i j time (omega (arith, same.same_length, h.length_list))
          (omega (arith, same.same_length, h.length_list)) apart in
      let can : CanRun st.device (timed (swap_of i j) time) = record {
        first = i;
        second = j;
        on_pair = refl;
        inside = omega (arith, same.same_length, h.length_list);
        joined = coupled_same same i j ∙ joined;
        first_free = free;
        second_free = free';
        takes = refl;
      } in
      (d', rw e refl, done, Runs-snoc (timed (swap_of i j) time) runs can e)

  length-timed :
      (st : Stage) (op : GateInfo)
      → length (st.operation_list ++ op ∷ []) ≡ length st.operation_list + 1
  length-timed st op = length-append st.operation_list (op ∷ [])

  abbrev busy : Stage → ℕ → ℕ
  busy st k = (qubit_of st.device k).occupied_time

  -- The swap of the first qubit with the next one on the way.
  pub first_step :
      {a b : ℕ} {st : Stage}
      → OnWay a b st
      → a + 1 < b
      → (st' : Stage) × (swap_along
            (r.qubit a)
            (r.qubit (a + 1))
            (later (busy st (r.qubit a)) (busy st (r.qubit (a + 1))))
            (r.qubit (a + 1))
            (r.qubit b)
            st
          ≡ some st')
        × OnWay (a + 1) b st'
  first_step {a} {b} {st} w lt =
      let time = later (busy st (r.qubit a)) (busy st (r.qubit (a + 1))) in
      let (d', e, done, runs) =
        swap_runs st (r.qubit a) (r.qubit (a + 1)) time (r.qubit (a + 1)) (r.qubit b) w.same
          (r.inside a (omega (arith, w.on_way))) (r.inside (a + 1) (omega (arith, w.on_way)))
          (distinct a (a + 1) (omega arith) (omega (arith, w.on_way)))
          (r.couples a (omega (arith, w.on_way))) (ground arith) (ground arith) w.runs in
      (
        _,
        e,
        record {
          ordered = lt;
          on_way = w.on_way;
          at_first = refl;
          at_second = refl;
          same = IsSameMap-trans w.same done.same_map;
          carries_first = done.second ∙ w.carries_first;
          carries_second =
              done.others (r.qubit b) (λ p. distinct a b w.ordered w.on_way (sym p))
                (λ p. distinct (a + 1) b lt w.on_way (sym p))
              ∙ w.carries_second;
          count = omega (
            arith,
            length-timed st (timed (swap_of (r.qubit a) (r.qubit (a + 1))) time),
            w.count,
          );
          swaps = all_swaps-snoc st.operation_list _ w.swaps refl;
          runs = runs;
        },
      )

  -- And the swap of the second one with the one before it.
  pub second_step :
      {a b : ℕ} {st : Stage}
      → OnWay a (b + 1) st
      → a < b
      → (st' : Stage) × (swap_along
            (r.qubit (b + 1))
            (r.qubit b)
            (later (busy st (r.qubit (b + 1))) (busy st (r.qubit b)))
            (r.qubit a)
            (r.qubit b)
            st
          ≡ some st')
        × OnWay a b st'
  second_step {a} {b} {st} w lt =
      let time = later (busy st (r.qubit (b + 1))) (busy st (r.qubit b)) in
      let hb = r.inside b (omega (arith, w.on_way)) in
      let hb' = r.inside (b + 1) w.on_way in
      let (d', e, done, runs) =
        swap_runs st (r.qubit (b + 1)) (r.qubit b) time (r.qubit a) (r.qubit b) w.same hb' hb
          (λ p. distinct b (b + 1) (omega arith) w.on_way (sym p))
          (h.coupling.both_ways (r.qubit (b + 1)) (r.qubit b) hb' hb
            ∙ r.couples b (omega (arith, w.on_way)))
          (ground arith) (ground arith) w.runs in
      (
        _,
        e,
        record {
          ordered = lt;
          on_way = omega (arith, w.on_way);
          at_first = refl;
          at_second = refl;
          same = IsSameMap-trans w.same done.same_map;
          carries_first =
              done.others (r.qubit a) (distinct a (b + 1) w.ordered w.on_way)
                (distinct a b lt (omega (arith, w.on_way)))
              ∙ w.carries_first;
          carries_second = done.second ∙ w.carries_second;
          count = omega (
            arith,
            length-timed st (timed (swap_of (r.qubit (b + 1)) (r.qubit b)) time),
            w.count,
          );
          swaps = all_swaps-snoc st.operation_list _ w.swaps refl;
          runs = runs;
        },
      )
