-- ===== src/Duostra/Placement.antt =====
-- `Device::place` puts each logical qubit at the place that an assignment gives it.
use qsyn.Prelude.{
  ℕ, zero, suc, ◌+◌, ◌<◌, ◌≡◌, ◌≢◌, refl, ◌∙◌, sym, ap, subst, none, some, List, [], ◌∷◌, length,
  get_or, length-set, arith,
}
use qsyn.Device.Path.{IsRead}
use qsyn.Device.State.{Device, on_qubit, set_logical_qubit, place_from, place}
use qsyn.Device.Topology.Weights.{IsCoupling}
use qsyn.Device.Writes.{qubit_of, at_written, at_other}
use qsyn.Duostra.Router.Initialize.{IsPlaced}
use qsyn.Duostra.Router.Occupy.{IsSameMap, IsSameMap-refl, IsSameMap-trans, on_qubit-IsSameMap}
use qsyn.Duostra.Router.Permuted.{IsCoupling-same}

-- An assignment of as many logical qubits as the device has qubits, one to one.
pub record IsAssignment (n : ℕ) (assignment : List ℕ) : Type 0 where
  pub size : length assignment ≡ n
  pub logical_at : ℕ → ℕ
  pub inside : (l : ℕ) → l < n → get_or assignment l 0 < n
  pub at_inside : (p : ℕ) → p < n → logical_at p < n
  pub back : (l : ℕ) → l < n → logical_at (get_or assignment l 0) ≡ l
  pub forth : (p : ℕ) → p < n → get_or assignment (logical_at p) 0 ≡ p

abbrev AllBelow : ℕ → List ℕ → Type 0
AllBelow n ps = (k : ℕ) → k < length ps → get_or ps k 0 < n

-- The device after one write.
abbrev written : ℕ → ℕ → Device → Device
written i p d = on_qubit p (set_logical_qubit (some i)) d

length-written : (i p : ℕ) (d : Device) → length (written i p d).qubit_list ≡ length d.qubit_list
length-written i p d = length-set d.qubit_list p (set_logical_qubit (some i) (qubit_of d p))

-- The device after the writes of `place`, without its assertions.
abbrev placed_from : ℕ → List ℕ → Device → Device
placed_from i [] d = d
placed_from i (p ∷ ps) d = placed_from (i + 1) ps (written i p d)

placed_from-IsSameMap :
    (i : ℕ) (ps : List ℕ) (d : Device)
    → AllBelow (length d.qubit_list) ps
    → IsSameMap d (placed_from i ps d)
placed_from-IsSameMap i [] d below = IsSameMap-refl d
placed_from-IsSameMap i (p ∷ ps) d below =
    IsSameMap-trans
      (on_qubit-IsSameMap d p (set_logical_qubit (some i)) (below 0 (omega arith))
        (λ q. (refl, refl)))
      (placed_from-IsSameMap (i + 1) ps (written i p d)
        (λ k low. omega (arith, below (suc k) (omega arith), length-written i p d)))

-- A place that the assignment does not name keeps its logical qubit.
placed_from_absent :
    (i : ℕ) (ps : List ℕ) (d : Device) (p : ℕ)
    → AllBelow (length d.qubit_list) ps
    → ((k : ℕ) → k < length ps → get_or ps k 0 ≢ p)
    → (qubit_of (placed_from i ps d) p).logical_qubit ≡ (qubit_of d p).logical_qubit
placed_from_absent i [] d p below absent = refl
placed_from_absent i (x ∷ ps) d p below absent =
    placed_from_absent (i + 1) ps (written i x d) p
      (λ k low. omega (arith, below (suc k) (omega arith), length-written i x d))
      (λ k low. absent (suc k) (omega arith))
    ∙ at_other (λ q. q.logical_qubit) d x (set_logical_qubit (some i)) (below 0 (omega arith)) p
        (λ e. absent 0 (omega arith) (sym e))

placed_from_lem :
    (i : ℕ) (ps : List ℕ) (d : Device) (k : ℕ)
    → AllBelow (length d.qubit_list) ps
    → k < length ps
    → ((a b : ℕ) → a < length ps → b < length ps → get_or ps a 0 ≡ get_or ps b 0 → a ≡ b)
    → (qubit_of (placed_from i ps d) (get_or ps k 0)).logical_qubit ≡ some (i + k)
placed_from_lem i [] d k below low distinct = absurd (omega arith)
placed_from_lem i (x ∷ ps) d zero below low distinct =
    placed_from_absent (i + 1) ps (written i x d) x
      (λ k low. omega (arith, below (suc k) (omega arith), length-written i x d))
      (λ k low e. absurd (omega (arith, distinct (suc k) 0 (omega arith) (omega arith) e)))
    ∙ at_written (λ q. q.logical_qubit) d x (set_logical_qubit (some i)) (below 0 (omega arith))
    ∙ ap some (omega arith)
placed_from_lem i (x ∷ ps) d (suc k) below low distinct =
    placed_from_lem (i + 1) ps (written i x d) k
      (λ k low. omega (arith, below (suc k) (omega arith), length-written i x d)) (omega arith)
      (λ a b la lb e. omega (arith, distinct (suc a) (suc b) (omega arith) (omega arith) e))
    ∙ ap some (omega arith)

-- The assertions hold if the places are different and hold no logical qubit.
place_from_runs :
    (i : ℕ) (ps : List ℕ) (d : Device)
    → AllBelow (length d.qubit_list) ps
    → ((a b : ℕ) → a < length ps → b < length ps → get_or ps a 0 ≡ get_or ps b 0 → a ≡ b)
    → ((k : ℕ) → k < length ps → (qubit_of d (get_or ps k 0)).logical_qubit ≡ none)
    → place_from i ps d ≡ some (placed_from i ps d)
place_from_runs i [] d below distinct free = refl
place_from_runs i (p ∷ ps) d below distinct free = rw (free 0 (omega arith)) (
    place_from_runs (i + 1) ps (written i p d)
      (λ k low. omega (arith, below (suc k) (omega arith), length-written i p d))
      (λ a b la lb e. omega (arith, distinct (suc a) (suc b) (omega arith) (omega arith) e))
      (λ k low.
        at_other (λ q. q.logical_qubit) d p (set_logical_qubit (some i)) (below 0 (omega arith))
          (get_or ps k 0)
          (λ e. absurd (omega (arith, distinct (suc k) 0 (omega arith) (omega arith) e)))
        ∙ free (suc k) (omega arith)))

-- No qubit of the device holds a logical one.
unfoldable pub IsEmpty : Device → Type 0
IsEmpty d = (p : ℕ) → p < d.num_qubit → (qubit_of d p).logical_qubit ≡ none

-- From any one-to-one assignment, `place` passes its assertions on a device that holds no logical qubit.
-- The device that it makes has each logical qubit at the place that the assignment gives it, and the
-- qubits, couplings and topology that the device had.
pub place-IsPlaced :
    (d : Device) (assignment : List ℕ)
    → IsRead d
    → IsEmpty d
    → IsAssignment d.num_qubit assignment
    → (d' : Device) × (place assignment d ≡ some d')
      × ((l : ℕ) → l < d.num_qubit → (qubit_of d' (get_or assignment l 0)).logical_qubit ≡ some l)
      × IsSameMap d d'
      × IsPlaced d'
      × IsRead d'
unfolding IsEmpty
place-IsPlaced d assignment read empty h = (
  placed_from 0 assignment d,
  place_from_runs 0 assignment d below distinct
      (λ k low. empty (get_or assignment k 0) (h.inside k (omega (arith, h.size)))),
  (λ l hl.
      placed_from_lem 0 assignment d l below (omega (arith, h.size)) distinct
      ∙ ap some (omega arith)),
  same,
  record {
    logical_at = h.logical_at;
    place_of = λ l. get_or assignment l 0;
    at_inside = λ p hp. omega (arith, num, h.at_inside p (omega (arith, num)));
    of_inside = λ l hl. omega (arith, num, h.inside l (omega (arith, num)));
    back = λ l hl. h.back l (omega (arith, num));
    forth = λ p hp. h.forth p (omega (arith, num));
    stands = λ p hp. stands p (omega (arith, num));
  },
  record {
    same_number = num ∙ read.same_number ∙ sym (ap (λ t. t.num_qubit) same.same_topology);
    length_list = omega (arith, num, same.same_length, read.length_list);
    few = omega (arith, num, read.few);
    coupling =
        subst (λ n. IsCoupling n (placed_from 0 assignment d).qubit_list) (sym num)
          (IsCoupling-same same read.coupling);
  },
)
  where
    below : AllBelow (length d.qubit_list) assignment
    below k low = omega (arith, h.inside k (omega (arith, h.size)), read.length_list)

    same : IsSameMap d (placed_from 0 assignment d)
    same = placed_from-IsSameMap 0 assignment d below

    num : (placed_from 0 assignment d).num_qubit ≡ d.num_qubit
    num = same.same_number

    distinct :
        (a b : ℕ)
        → a < length assignment
        → b < length assignment
        → get_or assignment a 0 ≡ get_or assignment b 0
        → a ≡ b
    distinct a b la lb e =
        sym (h.back a (omega (arith, h.size)))
        ∙ ap h.logical_at e
        ∙ h.back b (omega (arith, h.size))

    stands :
        (p : ℕ)
        → p < d.num_qubit
        → (qubit_of (placed_from 0 assignment d) p).logical_qubit ≡ some (h.logical_at p)
    stands p hp =
        sym (ap (λ k. (qubit_of (placed_from 0 assignment d) k).logical_qubit) (h.forth p hp))
        ∙ placed_from_lem 0 assignment d (h.logical_at p) below
            (omega (arith, h.size, h.at_inside p hp)) distinct
        ∙ ap some (omega arith)
