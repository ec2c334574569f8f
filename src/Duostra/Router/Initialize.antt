-- ===== src/Duostra/Router/Initialize.antt =====
-- `_initialize` makes the table of a router right.
use qsyn.Prelude.{
  ℕ, ◌<◌, ◌≡◌, ◌∙◌, sym, ap, true, none, some, List, length, get_or, arith, resize, length-resize,
  length-map,
}
use qsyn.Device.Path.{IsRead, calculate_path-HasPaths}
use qsyn.Device.State.{Device, mapping, calculate_path}
use qsyn.Duostra.Router.{Router}
use qsyn.Duostra.Router.Assign.{track, initialize}
use qsyn.Device.Writes.{qubit_of}
use qsyn.Duostra.Router.Tracking.{IsTracking, mapping_at, in_mapping}
use qsyn.Duostra.Router.Tracks.{Distinct, length-track, get_or-track}

-- Where the logical qubits of a placed device are: as many as there are qubits, each at one place.
pub record IsPlaced (d : Device) : Type 0 where
  pub logical_at : ℕ → ℕ
  pub place_of : ℕ → ℕ
  pub at_inside : (p : ℕ) → p < d.num_qubit → logical_at p < d.num_qubit
  pub of_inside : (l : ℕ) → l < d.num_qubit → place_of l < d.num_qubit
  pub back : (l : ℕ) → l < d.num_qubit → logical_at (place_of l) ≡ l
  pub forth : (p : ℕ) → p < d.num_qubit → place_of (logical_at p) ≡ p
  pub stands : (p : ℕ) → p < d.num_qubit → (qubit_of d p).logical_qubit ≡ some (logical_at p)

module _ (r : Router) (along : r.apsp ≡ true) (read : IsRead r.device)
    (placed : IsPlaced r.device) where
  abbrev n : ℕ
  n = r.device.num_qubit

  abbrev fresh : List ℕ
  fresh = resize n 0 r.logical_to_physical

  length-table : length (track 0 (mapping r.device) fresh) ≡ n
  length-table = length-track 0 (mapping r.device) fresh ∙ length-resize n 0 r.logical_to_physical

  here : (l : ℕ) → l < n → (qubit_of r.device (placed.place_of l)).logical_qubit ≡ some l
  here l hl = placed.stands (placed.place_of l) (placed.of_inside l hl) ∙ ap some (placed.back l hl)

  logical_same :
      (p l : ℕ) → p < n → (qubit_of r.device p).logical_qubit ≡ some l → placed.logical_at p ≡ l
  logical_same p l hp e =
      let both : some (placed.logical_at p) ≡ some l = sym (placed.stands p hp) ∙ e in
      ground (both, arith)

  logical_inside : (p l : ℕ) → p < n → (qubit_of r.device p).logical_qubit ≡ some l → l < n
  logical_inside p l hp e = omega (arith, logical_same p l hp e, placed.at_inside p hp)

  inside : (p l : ℕ) → get_or (mapping r.device) p none ≡ some l → p < n
  inside p l e = omega (
    arith,
    in_mapping (mapping r.device) p l e,
    length-map r.device.qubit_list (λ q. q.logical_qubit),
    read.length_list,
  )

  apart : Distinct (mapping r.device)
  apart i j l e f =
      let hi = inside i l e in
      let hj = inside j l f in
      sym (placed.forth i hi)
      ∙ ap placed.place_of (
          logical_same i l hi (sym (mapping_at r.device i) ∙ e)
          ∙ sym (logical_same j l hj (sym (mapping_at r.device j) ∙ f)))
      ∙ placed.forth j hj

  found :
      (p l : ℕ)
      → p < n
      → l < n
      → (qubit_of r.device p).logical_qubit ≡ some l
      → get_or (track 0 (mapping r.device) fresh) l 0 ≡ p
  found p l hp hl e = omega (
    arith,
    get_or-track 0 (mapping r.device) fresh p l apart (mapping_at r.device p ∙ e)
        (omega (arith, hl, length-resize n 0 r.logical_to_physical)),
  )

  -- For a router along shortest paths, `_initialize` computes the paths of the device and makes the table
  -- right, from any placement of as many logical qubits as the device has qubits.
  pub initialize-IsTracking : IsTracking (initialize r)
  unfolding initialize calculate_path
  initialize-IsTracking = rw along record {
    paths = calculate_path-HasPaths r.device read;
    sized = length-table;
    placed = λ l hl.
        rw (found (placed.place_of l) l (placed.of_inside l hl) hl (here l hl))
          (placed.of_inside l hl);
    there =
        λ l hl. rw (found (placed.place_of l) l (placed.of_inside l hl) hl (here l hl)) (here l hl);
    known = λ p l hp e. (logical_inside p l hp e, found p l hp (logical_inside p l hp e) e);
  }
