-- ===== src/Device/Topology/Weights.antt =====
-- `_set_weight`: a coupling weighs 1, and the other entries stay.
use qsyn.Prelude.{
  ℕ, ◌<◌, ◌≡◌, Bool, true, false, ◌&&◌, ◌==◌, ltb, List, [], ◌∷◌, arith, if◌then◌else◌, Grid, entry,
  IsSquare, entry-write, write-IsSquare, for_range_ind,
}
use qsyn.Device.Qubit.{PhysicalQubit, elem}
use qsyn.Device.Topology.{qubit_at, set_adjacencies, set_weight}

-- Whether qubit `j` is among the adjacencies of qubit `i`.
unfoldable pub coupled : List PhysicalQubit → ℕ → ℕ → Bool
coupled qs i j = elem j (qubit_at qs i).adjacencies

-- A device whose qubits stand at their ids and whose couplings go both ways, between two of its qubits.
pub record IsCoupling (n : ℕ) (qs : List PhysicalQubit) : Type 0 where
  pub at_id : (i : ℕ) → i < n → (qubit_at qs i).id ≡ i
  pub in_range : (i j : ℕ) → i < n → coupled qs i j ≡ true → j < n
  pub both_ways : (i j : ℕ) → i < n → j < n → coupled qs i j ≡ coupled qs j i
  pub apart : (i : ℕ) → i < n → coupled qs i i ≡ false

set_adjacencies-entry :
    {n : ℕ} (i : ℕ) (adjs : List ℕ) {g : Grid}
    → i < n
    → ((j : ℕ) → elem j adjs ≡ true → j < n)
    → IsSquare n g
    → IsSquare n (set_adjacencies i adjs g)
      × ((a b : ℕ)
          → entry (set_adjacencies i adjs g) a b
            ≡ (if (a == i) && elem b adjs then 1 else entry g a b))
set_adjacencies-entry i [] hi range sq = (sq, λ a b. ground arith)
set_adjacencies-entry i (j ∷ adjs) {g} hi range sq =
    let hj = range j (ground arith) in
    let rest =
      set_adjacencies-entry i adjs hi (λ l e. range l (ground (arith, e)))
        (write-IsSquare sq i j 1 hi) in
    (rest.0, λ a b. ground (arith, rest.1 a b, entry-write sq i j a b 1 hi hj))

pub set_weight-entry :
    {n : ℕ} {qs : List PhysicalQubit} (cp : IsCoupling n qs) {g : Grid}
    → IsSquare n g
    → IsSquare n (set_weight n qs g)
      × ((a b : ℕ)
          → a < n
          → entry (set_weight n qs g) a b ≡ (if coupled qs a b then 1 else entry g a b))
unfolding set_weight coupled
set_weight-entry {n} {qs} cp {g} sq = (done.0, λ a b ha. ground (arith, done.1 a b))
  where
    Progress : ℕ → Grid → Type 0
    Progress i u =
        IsSquare n u
        × ((a b : ℕ) → entry u a b ≡ (if ltb a i && coupled qs a b then 1 else entry g a b))

    done : Progress n (set_weight n qs g)
    done =
        for_range_ind Progress n 0 n _ (omega arith)
          (λ i u low high p.
            let rest =
              set_adjacencies-entry i (qubit_at qs i).adjacencies high
                (λ j e. cp.in_range i j high e) p.0 in
            (rest.0, λ a b. grind (arith, rest.1 a b, p.1 a b)))
          g (sq, λ a b. ground arith)
