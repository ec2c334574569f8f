-- ===== src/Device/Topology/Phase.antt =====
-- What the two inner loops of `floyd_warshall` leave: every entry as the state before them gives it.
use qsyn.Prelude.{
  ℕ, ◌+◌, ◌≤◌, ◌<◌, ◌≡◌, refl, Bool, false, ltb, arith, Bool-cases, inl, inr, entry, write,
  IsSquare, for_cells_ind, if◌then◌else◌,
}
use qsyn.Prelude.Filled.{
  Filled, write-Filled, skip-Filled, next-Filled, start-Filled, Filled-here, Filled-kept,
  Filled-all,
}
use qsyn.Device.Topology.{Topology, max_dist, relax, relax_all}
use qsyn.Device.Topology.Routes.{IsStep}

-- Both matrices have a row and a column per qubit.
pub record IsSized (n : ℕ) (t : Topology) : Type 0 where
  pub of_distance : IsSquare n t.distance
  pub of_predecessor : IsSquare n t.predecessor

-- Whether the way through qubit `k` is shorter.
unfoldable improves : ℕ → Topology → ℕ → ℕ → Bool
unfolding entry
improves k t i j = ltb (entry t.distance i k + entry t.distance k j) (entry t.distance i j)

module _ (n k : ℕ) (t : Topology) (inside : k < n) (sized : IsSized n t)
    (loopless : entry t.distance k k ≡ 0)
    (bounded : (i j : ℕ) → i < n → j < n → entry t.distance i j ≤ max_dist) where
  abbrev through : ℕ → ℕ → ℕ
  through i j = entry t.distance i k + entry t.distance k j

  abbrev last_step : ℕ → ℕ → ℕ
  last_step i j = entry t.predecessor k j

  record Progress (i j : ℕ) (u : Topology) : Type 0 where
    distances : Filled n (improves k t) through (entry t.distance) i j u.distance
    predecessors : Filled n (improves k t) last_step (entry t.predecessor) i j u.predecessor

  -- Neither the column nor the row of `k` changes.
  in_column : (i : ℕ) → improves k t i k ≡ false
  unfolding improves
  in_column i = ground (arith, loopless)

  in_row : (j : ℕ) → improves k t k j ≡ false
  unfolding improves
  in_row j = ground (arith, loopless)

  -- The body of the loops, by the test on the state before the phase.
  relaxed : ℕ → ℕ → Topology → Topology
  relaxed i j u = record u {
    distance = write u.distance i j (through i j);
    predecessor = write u.predecessor i j (last_step i j);
  }

  relax_lem :
      (i j : ℕ) (u : Topology)
      → i < n
      → j < n
      → Progress i j u
      → relax k i j u ≡ (if improves k t i j then relaxed i j u else u)
  unfolding relaxed improves
  relax_lem i j u hi hj h =
      rw
        (
          Filled-kept n _ _ _ h.distances i k hi inside (in_column i),
          Filled-kept n _ _ _ h.distances k j inside hj (in_row j),
          Filled-kept n _ _ _ h.predecessors k j inside hj (in_row j),
          Filled-here n _ _ _ hi hj h.distances,
        )
        (ground (arith, bounded i j hi hj))

  relax-Progress :
      (i j : ℕ) (u : Topology) → i < n → j < n → Progress i j u → Progress i (j + 1) (relax k i j u)
  unfolding relaxed
  relax-Progress i j u hi hj h =
      rw (relax_lem i j u hi hj h) (elim (Bool-cases (improves k t i j)) [
        | inl e ↦ rw e record {
          distances = write-Filled n _ _ _ hi hj e h.distances;
          predecessors = write-Filled n _ _ _ hi hj e h.predecessors;
        }
        | inr e ↦ rw e record {
          distances = skip-Filled n _ _ _ hi hj e h.distances;
          predecessors = skip-Filled n _ _ _ hi hj e h.predecessors;
        }
      ])

  -- The loops over `i` and `j`, which work in place, compute every entry from the state before them.
  pub relax_all-IsStep :
      IsSized n (relax_all n k t)
      × IsStep n k
          (entry t.distance)
          (entry t.predecessor)
          (entry (relax_all n k t).distance)
          (entry (relax_all n k t).predecessor)
  unfolding relax_all improves
  relax_all-IsStep = (
    record { of_distance = done.distances.square; of_predecessor = done.predecessors.square },
    record {
      distance_after = Filled-all n _ _ _ done.distances;
      predecessor_after = Filled-all n _ _ _ done.predecessors;
    },
  )
    where
      done : Progress n 0 (relax_all n k t)
      done =
          for_cells_ind Progress n (relax k) relax-Progress
            (λ i u hi h. record {
              distances = next-Filled n _ _ _ h.distances;
              predecessors = next-Filled n _ _ _ h.predecessors;
            })
            t
            record {
              distances = start-Filled n _ _ _ sized.of_distance (λ a b ha hb. refl);
              predecessors = start-Filled n _ _ _ sized.of_predecessor (λ a b ha hb. refl);
            }
