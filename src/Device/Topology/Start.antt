-- ===== src/Device/Topology/Start.antt =====
-- The state that the phases of `floyd_warshall` start from: one step per coupling.
use qsyn.Prelude.{
  ℕ, ◌+◌, ◌<◌, ◌≡◌, refl, Bool, true, not, ◌&&◌, ◌==◌, List, if◌then◌else◌, Grid, entry,
  for_cells_ind, inl, inr, Bool-cases,
}
use qsyn.Prelude.Filled.{Filled, write-Filled, skip-Filled, next-Filled, start-Filled, Filled-all}
use qsyn.Device.Qubit.{PhysicalQubit, max_qubit_id}
use qsyn.Device.Topology.{
  Topology, max_dist, qubit_at, init_cell, init_predecessor_and_distance, clear_distance,
  clear_predecessor,
}
use qsyn.Device.Topology.Initial.{resize_rows-entry}
use qsyn.Device.Topology.Phase.{IsSized}

module _ (qs : List PhysicalQubit) (w : Grid) (t : Topology) where
  abbrev n : ℕ
  n = t.num_qubit

  abbrev weighted : ℕ → ℕ → Bool
  weighted i j = not (entry w i j == 0) && not (entry w i j == max_dist)

  abbrev from_id : ℕ → ℕ → ℕ
  from_id i j = (qubit_at qs i).id

  record Progress (i j : ℕ) (u : Topology) : Type 0 where
    distances : Filled n (λ a b. true) (entry w) (λ a b. 0) i j u.distance
    predecessors : Filled n weighted from_id (λ a b. max_qubit_id) i j u.predecessor

  init_cell-Progress :
      (i j : ℕ) (u : Topology)
      → i < n
      → j < n
      → Progress i j u
      → Progress i (j + 1) (init_cell qs w i j u)
  init_cell-Progress i j u hi hj h = elim (Bool-cases (weighted i j)) [
    | inl e ↦ rw e record {
      distances = write-Filled n _ _ _ hi hj refl h.distances;
      predecessors = write-Filled n _ _ _ hi hj e h.predecessors;
    }
    | inr e ↦ rw e record {
      distances = write-Filled n _ _ _ hi hj refl h.distances;
      predecessors = skip-Filled n _ _ _ hi hj e h.predecessors;
    }
  ]

  abbrev fresh : Topology
  fresh = clear_distance (clear_predecessor t)

  pub init-entry :
      IsSized n (init_predecessor_and_distance qs w fresh)
      × ((i j : ℕ)
          → i < n
          → j < n
          → entry (init_predecessor_and_distance qs w fresh).distance i j ≡ entry w i j)
      × ((i j : ℕ)
          → i < n
          → j < n
          → entry (init_predecessor_and_distance qs w fresh).predecessor i j
            ≡ (if weighted i j then (qubit_at qs i).id else max_qubit_id))
  unfolding init_predecessor_and_distance
  init-entry = (
    record { of_distance = done.distances.square; of_predecessor = done.predecessors.square },
    Filled-all n _ _ _ done.distances,
    Filled-all n _ _ _ done.predecessors,
  )
    where
      done : Progress n 0 (init_predecessor_and_distance qs w fresh)
      done =
          let zeros = resize_rows-entry n 0 in
          let nones = resize_rows-entry n max_qubit_id in
          for_cells_ind Progress n (init_cell qs w) init_cell-Progress
            (λ i u hi h. record {
              distances = next-Filled n _ _ _ h.distances;
              predecessors = next-Filled n _ _ _ h.predecessors;
            })
            _
            record {
              distances = start-Filled n _ _ _ zeros.0 zeros.1;
              predecessors = start-Filled n _ _ _ nones.0 nones.1;
            }
