-- ===== src/Device/Coupling.antt =====
-- `add_adjacency` builds couplings that go both ways.
use qsyn.Prelude.{
  ℕ, ◌<◌, ◌≡◌, ◌≢◌, refl, ◌∙◌, sym, ap, ap₂, ◌==◌, ◌||◌, ◌&&◌, ltb, ==_iff, ==_false, List, [], ◌∷◌,
  ◌++◌, length, length-set, inl, inr, eq_cases, Bool-cases, arith,
}
use qsyn.Device.Qubit.{elem, push_adjacency}
use qsyn.Device.State.{Device, on_qubit, couple, add_adjacency}
use qsyn.Device.Topology.Weights.{coupled, IsCoupling}
use qsyn.Device.Writes.{qubit_of, at_any, at_written, at_other}

elem-append : (x y : ℕ) (xs : List ℕ) → elem x (xs ++ y ∷ []) ≡ (elem x xs || (y == x))
elem-append x y [] = ground arith
elem-append x y (z ∷ xs) = ground (elem-append x y xs, arith)

-- One of the two writes.
coupled-push :
    (d : Device) (a y i j : ℕ)
    → a < length d.qubit_list
    → coupled (on_qubit a (push_adjacency y) d).qubit_list i j
      ≡ (coupled d.qubit_list i j || ((i == a) && (y == j)))
unfolding coupled
coupled-push d a y i j ha = elim (eq_cases i a) [
  | inl e ↦
      rw (e, (==_iff a a).1 refl)
        (ap (elem j) (at_written (λ q. q.adjacencies) d a (push_adjacency y) ha)
          ∙ elem-append j y (qubit_of d a).adjacencies)
  | inr ne ↦
      ap (elem j) (at_other (λ q. q.adjacencies) d a (push_adjacency y) ha i ne)
      ∙ rw (==_false i a ne) (ground arith)
]

module _ (d : Device) (n a b : ℕ) (len : length d.qubit_list ≡ n) (cp : IsCoupling n d.qubit_list)
    (ha : a < n) (hb : b < n) (apart : a ≢ b) where
  abbrev once : Device
  once = on_qubit a (push_adjacency (qubit_of d b).id) d

  in_list : a < length d.qubit_list
  in_list = omega (arith, len)

  in_once : b < length once.qubit_list
  in_once =
      omega
        (arith, len, length-set d.qubit_list a (push_adjacency (qubit_of d b).id (qubit_of d a)))

  ids_once : (k : ℕ) → (qubit_of once k).id ≡ (qubit_of d k).id
  ids_once = at_any (λ q. q.id) d a (push_adjacency (qubit_of d b).id) in_list (λ q. refl)

  -- Both couplings are there, and the old ones.
  coupled-couple :
      (i j : ℕ)
      → coupled (couple a b d).qubit_list i j
        ≡ ((coupled d.qubit_list i j || ((i == a) && (b == j))) || ((i == b) && (a == j)))
  coupled-couple i j =
      coupled-push once b (qubit_of once a).id i j in_once
      ∙ ap₂ (λ x y. x || ((i == b) && (y == j)))
          (coupled-push d a (qubit_of d b).id i j in_list
            ∙ ap (λ y. coupled d.qubit_list i j || ((i == a) && (y == j))) (cp.at_id b hb))
          (ids_once a ∙ cp.at_id a ha)

  couple-IsCoupling : IsCoupling n (couple a b d).qubit_list
  couple-IsCoupling = record {
    at_id = λ i hi.
        at_any (λ q. q.id) once b (push_adjacency (qubit_of once a).id) in_once (λ q. refl) i
        ∙ ids_once i
        ∙ cp.at_id i hi;
    in_range = λ i j hi e. ground (arith, coupled-couple i j, cp.in_range i j hi, ha, hb, e);
    both_ways =
        λ i j hi hj. ground (arith, coupled-couple i j, coupled-couple j i, cp.both_ways i j hi hj);
    apart = λ i hi. ground (arith, coupled-couple i i, cp.apart i hi);
  }

-- Coupling two different qubits of a device whose couplings go both ways gives such a device, with the new
-- coupling and the old ones.
pub add_adjacency-IsCoupling :
    (d : Device) (n a b : ℕ)
    → length d.qubit_list ≡ n
    → IsCoupling n d.qubit_list
    → a < n
    → b < n
    → a ≢ b
    → IsCoupling n (add_adjacency a b d).qubit_list
      × ((i j : ℕ)
          → coupled (add_adjacency a b d).qubit_list i j
            ≡ (coupled d.qubit_list i j || (((i == a) && (b == j)) || ((i == b) && (a == j)))))
add_adjacency-IsCoupling d n a b len cp ha hb apart = elim (Bool-cases (ltb b a)) [
  | inl e ↦ rw e (
    couple-IsCoupling d n b a len cp hb ha (λ p. apart (sym p)),
    λ i j. ground (arith, coupled-couple d n b a len cp hb ha (λ p. apart (sym p)) i j),
  )
  | inr e ↦ rw e (
    couple-IsCoupling d n a b len cp ha hb apart,
    λ i j. ground (arith, coupled-couple d n a b len cp ha hb apart i j),
  )
]
