-- ===== src/Duostra/Router/Tracks.antt =====
-- The table of the places of the logical qubits stays right.
use qsyn.Prelude.{
  ℕ, zero, suc, ◌+◌, ◌<◌, ◌≡◌, ◌≢◌, refl, ◌∙◌, ap, Option, none, some, List, [], ◌∷◌, length,
  get_or, set, get_or-set_self, get_or-set_ne, length-set, arith,
}
use qsyn.Duostra.Router.Assign.{track}

-- No logical qubit is at two places.
abbrev pub Distinct : List (Option ℕ) → Type 0
Distinct m = (i j l : ℕ) → get_or m i none ≡ some l → get_or m j none ≡ some l → i ≡ j

pub length-track :
    (i : ℕ) (m : List (Option ℕ)) (places : List ℕ) → length (track i m places) ≡ length places
length-track i [] places = refl
length-track i (none ∷ m) places = length-track (i + 1) m places
length-track i (some l ∷ m) places = length-track (i + 1) m (set places l i) ∙ length-set places l i

-- A logical qubit that is at no place of the mapping keeps its entry.
track_absent :
    (i : ℕ) (m : List (Option ℕ)) (places : List ℕ) (l : ℕ)
    → ((j : ℕ) → get_or m j none ≢ some l)
    → get_or (track i m places) l 0 ≡ get_or places l 0
track_absent i [] places l h = refl
track_absent i (none ∷ m) places l h = track_absent (i + 1) m places l (λ j. h (suc j))
track_absent i (some k ∷ m) places l h =
    track_absent (i + 1) m (set places k i) l (λ j. h (suc j))
    ∙ get_or-set_ne places k l i 0 (λ e. h 0 (ap some e))

Distinct-tail : (o : Option ℕ) (m : List (Option ℕ)) → Distinct (o ∷ m) → Distinct m
Distinct-tail o m dist i j l p q = omega (arith, dist (suc i) (suc j) l p q)

-- The others get the place that they are at.
pub get_or-track :
    (i : ℕ) (m : List (Option ℕ)) (places : List ℕ) (j l : ℕ)
    → Distinct m
    → get_or m j none ≡ some l
    → l < length places
    → get_or (track i m places) l 0 ≡ i + j
get_or-track i [] places j l dist e inside = ground arith
get_or-track i (none ∷ m) places zero l dist e inside = ground arith
get_or-track i (none ∷ m) places (suc j) l dist e inside =
    omega (arith, get_or-track (i + 1) m places j l (Distinct-tail none m dist) e inside)
get_or-track i (some k ∷ m) places zero l dist e inside =
    let same : k ≡ l = ground arith in
    omega (
      arith,
      track_absent (i + 1) m (set places k i) l
          (λ j p. absurd (omega (arith, dist 0 (suc j) l e p))),
      ap (λ x. get_or (set places x i) l 0) same,
      get_or-set_self places l i 0 inside,
    )
get_or-track i (some k ∷ m) places (suc j) l dist e inside = omega (
  arith,
  get_or-track (i + 1) m (set places k i) j l (Distinct-tail (some k) m dist) e
      (omega (arith, length-set places k i)),
)
