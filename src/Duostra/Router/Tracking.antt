-- ===== src/Duostra/Router/Tracking.antt =====
-- A router knows where each logical qubit is, and `assign_gate` keeps it so.
use qsyn.Prelude.{
  ℕ, zero, suc, ◌<◌, ◌≡◌, ◌∙◌, sym, ap, subst, Option, none, some, List, [], ◌∷◌, length,
  length-map, get_or, get_or-map, arith, entry, fun_ext,
}
use qsyn.Device.Path.{HasPaths}
use qsyn.Device.Qubit.{physical_qubit, max_qubit_id}
use qsyn.Device.State.{Device, mapping}
use qsyn.Device.Topology.Routes.{IsRouted}
use qsyn.Device.Topology.Weights.{coupled, IsCoupling}
use qsyn.Duostra.Router.{Router}
use qsyn.Duostra.Router.Assign.{track}
use qsyn.Device.Writes.{qubit_of}
use qsyn.Duostra.Router.Occupy.{IsSameMap}
use qsyn.Duostra.Router.Permuted.{IsPermuted, IsCoupling-same}
use qsyn.Duostra.Router.Stages.{coupled_same}
use qsyn.Duostra.Router.Tracks.{Distinct, length-track, get_or-track}

-- The device has paths, and the table has, for each logical qubit of as many as the device has qubits,
-- the one place at which the logical qubit is.
pub record IsTracking (r : Router) : Type 0 where
  pub paths : HasPaths r.device
  pub sized : length r.logical_to_physical ≡ r.device.num_qubit
  pub placed :
      (l : ℕ) → l < r.device.num_qubit → get_or r.logical_to_physical l 0 < r.device.num_qubit
  pub there :
      (l : ℕ)
      → l < r.device.num_qubit
      → (qubit_of r.device (get_or r.logical_to_physical l 0)).logical_qubit ≡ some l
  pub known :
      (p l : ℕ)
      → p < r.device.num_qubit
      → (qubit_of r.device p).logical_qubit ≡ some l
      → (l < r.device.num_qubit) × (get_or r.logical_to_physical l 0 ≡ p)

-- A device with the same map has the same paths.
pub HasPaths-same : {d d' : Device} → IsSameMap d d' → HasPaths d → HasPaths d'
HasPaths-same {d} {d'} same h =
    let n : d.num_qubit ≡ d'.num_qubit = sym same.same_number in
    let joined : coupled d.qubit_list ≡ coupled d'.qubit_list =
      fun_ext λ i. fun_ext λ j. sym (coupled_same same i j) in
    record {
      length_list = omega (arith, same.same_length, h.length_list, n);
      few = omega (arith, h.few, n);
      coupling = subst (λ k. IsCoupling k d'.qubit_list) n (IsCoupling-same same h.coupling);
      routed =
          subst
            (λ t.
              IsRouted d'.num_qubit (coupled d'.qubit_list) d'.num_qubit (entry t.distance)
                (entry t.predecessor))
            (sym same.same_topology)
            (subst
              (λ e.
                IsRouted d'.num_qubit e d'.num_qubit (entry d.topology.distance)
                  (entry d.topology.predecessor))
              joined
              (subst
                (λ k.
                  IsRouted k (coupled d.qubit_list) k (entry d.topology.distance)
                    (entry d.topology.predecessor))
                n h.routed));
    }

pub mapping_at : (d : Device) (k : ℕ) → get_or (mapping d) k none ≡ (qubit_of d k).logical_qubit
mapping_at d k = get_or-map d.qubit_list (λ q. q.logical_qubit) k (physical_qubit max_qubit_id)

pub in_mapping : (m : List (Option ℕ)) (k l : ℕ) → get_or m k none ≡ some l → k < length m
in_mapping [] k l e = ground arith
in_mapping (o ∷ m) zero l e = omega arith
in_mapping (o ∷ m) (suc k) l e = omega (arith, in_mapping m k l e)

-- After the logical qubits have been moved, the loop over the mapping sets the table right again.
module _ (r : Router) (h : IsTracking r) (d' : Device) (same : IsSameMap r.device d')
    (p : IsPermuted r.device.num_qubit r.device d') where
  abbrev n : ℕ
  n = r.device.num_qubit

  inside : (k l : ℕ) → get_or (mapping d') k none ≡ some l → k < n
  inside k l e = omega (
    arith,
    in_mapping (mapping d') k l e,
    length-map d'.qubit_list (λ q. q.logical_qubit),
    same.same_length,
    h.paths.length_list,
  )

  -- Where a logical qubit was before.
  before :
      (k l : ℕ)
      → k < n
      → (qubit_of d' k).logical_qubit ≡ some l
      → (l < n) × (get_or r.logical_to_physical l 0 ≡ p.origin k)
  before k l hk e = h.known (p.origin k) l (p.origin_inside k hk) (sym (p.moved k) ∙ e)

  mapping-Distinct : Distinct (mapping d')
  mapping-Distinct i j l e f =
      let bi = before i l (inside i l e) (sym (mapping_at d' i) ∙ e) in
      let bj = before j l (inside j l f) (sym (mapping_at d' j) ∙ f) in
      sym (p.target_origin i) ∙ ap p.target (sym bi.1 ∙ bj.1) ∙ p.target_origin j

  found :
      (k l : ℕ)
      → l < n
      → (qubit_of d' k).logical_qubit ≡ some l
      → get_or (track 0 (mapping d') r.logical_to_physical) l 0 ≡ k
  found k l hl e = omega (
    arith,
    get_or-track 0 (mapping d') r.logical_to_physical k l mapping-Distinct (mapping_at d' k ∙ e)
        (omega (arith, h.sized)),
  )

  -- Where it is now.
  moved_to : (l : ℕ) → l < n → ℕ
  moved_to l hl = p.target (get_or r.logical_to_physical l 0)

  arrived : (l : ℕ) (hl : l < n) → (qubit_of d' (moved_to l hl)).logical_qubit ≡ some l
  unfolding moved_to
  arrived l hl =
      p.moved (moved_to l hl)
      ∙ ap (λ k. (qubit_of r.device k).logical_qubit)
          (p.origin_target (get_or r.logical_to_physical l 0))
      ∙ h.there l hl

  now :
      (l : ℕ) (hl : l < n) → get_or (track 0 (mapping d') r.logical_to_physical) l 0 ≡ moved_to l hl
  now l hl = found (moved_to l hl) l hl (arrived l hl)

  moved_inside : (l : ℕ) (hl : l < n) → moved_to l hl < n
  unfolding moved_to
  moved_inside l hl = p.target_inside (get_or r.logical_to_physical l 0) (h.placed l hl)

  abbrev retracked : Router
  retracked = record r {
    device = d';
    logical_to_physical = track 0 (mapping d') r.logical_to_physical;
  }

  pub retracked-IsTracking : IsTracking retracked
  retracked-IsTracking = record {
    paths = HasPaths-same same h.paths;
    sized =
        omega (arith, length-track 0 (mapping d') r.logical_to_physical, h.sized, same.same_number);
    placed = λ l low.
        let hl : l < n = omega (arith, same.same_number) in
        omega (arith, now l hl, moved_inside l hl, same.same_number);
    there =
        λ l low. let hl : l < n = omega (arith, same.same_number) in rw (now l hl) (arrived l hl);
    known = λ k l low e.
        let hk : k < n = omega (arith, same.same_number) in
        let hl = (before k l hk e).0 in (omega (arith, hl, same.same_number), found k l hl e);
  }
