-- ===== src/Tableau/Optimization/Rotations.antt =====
-- The passes over a list of rotations and the Clifford in front of it.
pub mod Merge
pub mod View
pub mod Angles
pub mod Absorb
pub mod Count
pub mod Sound
use qsyn.Prelude.{
  ℕ, zero, suc, ◌+◌, ◌*◌, Bool, true, false, not, ◌&&◌, ◌||◌, ltb, List, [], ◌∷◌, ◌++◌, map,
  reverse, length, if◌then◌else◌,
}
use qsyn.Prelude.Int.{ℤ, pos, negsuc, is_negative, nat_abs}
use qsyn.Pauli.Equality.{equal_product}
use qsyn.Pauli.Operator.{CliffordOperatorString, adjoint}
use qsyn.Pauli.Product
use qsyn.Pauli.Rotation
use qsyn.Pauli.Rotation.{PauliRotation, is_commutative, extract_clifford_operators}
use qsyn.Pauli.Trait.{PauliProductTrait, apply, sdg, z}
use qsyn.Tableau.Stabilizer
use qsyn.Tableau.Stabilizer.{StabilizerTableau, stabilizer_tableau}
use qsyn.Tableau.Optimization.Identities.{remove_identities}
use qsyn.Util.Phase
use qsyn.Util.Phase.{Phase, phase, phase_of}

abbrev pub set_phase : PauliRotation → Phase → PauliRotation
set_phase r θ = record r { phase = θ }

-- The inner loop of `merge_rotations`: the rotations after `r`, until one does not commute with it.
unfoldable pub merge_with : PauliRotation → List PauliRotation → PauliRotation × List PauliRotation
unfolding equal_product Product.is_commutative Phase.add phase_of
merge_with r [] = (r, [])
merge_with r (u ∷ us) =
    let same = merge_with (set_phase r (Phase.add r.phase u.phase)) us in
    let other = merge_with r us in
    if not (is_commutative r u)
    then (r, u ∷ us)
    else if equal_product r.product u.product
    then (same.0, set_phase u (phase_of (pos 0)) ∷ same.1)
    else (other.0, u ∷ other.1)

-- The outer loop, for the given number of rounds.
unfoldable pub merge_rounds : ℕ → List PauliRotation → List PauliRotation
unfolding merge_with
merge_rounds zero rs = rs
merge_rounds (suc n) [] = []
merge_rounds (suc n) (r ∷ rs) = let m = merge_with r rs in m.0 ∷ merge_rounds n m.1

unfoldable pub merge_rotations : List PauliRotation → List PauliRotation
unfolding merge_rounds remove_identities
merge_rotations rs = remove_identities (merge_rounds (length rs) rs)

-- `ConjugationView`: the Clifford, and the rotations before the index `_upto`.
pub record ConjugationView : Type 0 where
  pub clifford : StabilizerTableau
  pub rotations : List PauliRotation

unfoldable pub h : ConjugationView → ℕ → ConjugationView
h v q = record {
  clifford = Stabilizer.h v.clifford q;
  rotations = map (λ r. Rotation.h r q) v.rotations;
}

unfoldable pub s : ConjugationView → ℕ → ConjugationView
s v q = record {
  clifford = Stabilizer.s v.clifford q;
  rotations = map (λ r. Rotation.s r q) v.rotations;
}

unfoldable pub cx : ConjugationView → ℕ → ℕ → ConjugationView
cx v c t = record {
  clifford = Stabilizer.cx v.clifford c t;
  rotations = map (λ r. Rotation.cx r c t) v.rotations;
}

instance abbrev pub conjugation_view : PauliProductTrait ConjugationView
conjugation_view = record { h = h; s = s; cx = cx }

abbrev pub half : Phase
half = phase (pos 1) (pos 2)

abbrev pub minus_half : Phase
minus_half = phase (negsuc 0) (pos 2)

abbrev pub one : Phase
one = phase_of (pos 1)

-- A rotation by a Clifford angle, as gates on the view: its operators, one gate, and back.
unfoldable pub absorb_angle : Phase → PauliRotation → ConjugationView → ConjugationView
unfolding apply extract_clifford_operators phase phase_of h s cx adjoint
absorb_angle θ r v =
    let e = extract_clifford_operators r in
    let v₁ = apply v e.0 in
    let v₂ =
      if Phase.equal θ half
      then s v₁ e.1
      else if Phase.equal θ minus_half
      then sdg v₁ e.1
      else z v₁ e.1 in
    apply v₂ (adjoint e.0)

-- The loop of `absorb_clifford_rotations`, with the rotations before the index in the view.
unfoldable pub is_clifford_angle : Phase → Bool
unfolding phase phase_of
is_clifford_angle θ = Phase.equal θ half || Phase.equal θ minus_half || Phase.equal θ one

unfoldable pub absorb_from : ConjugationView → List PauliRotation → ConjugationView
unfolding absorb_angle is_clifford_angle phase_of
absorb_from v [] = v
absorb_from v (r ∷ rs) =
    let v' = absorb_angle r.phase r v in
    let skipped = absorb_from (record v { rotations = v.rotations ++ r ∷ [] }) rs in
    let absorbed =
      absorb_from (record v' { rotations = v'.rotations ++ set_phase r (phase_of (pos 0)) ∷ [] })
        rs in
    if is_clifford_angle r.phase then absorbed else skipped

unfoldable pub absorb_clifford_rotations :
    StabilizerTableau → List PauliRotation → StabilizerTableau × List PauliRotation
unfolding absorb_from remove_identities
absorb_clifford_rotations c rs =
    let v = absorb_from (record { clifford = c; rotations = [] }) rs in
    (v.clifford, remove_identities v.rotations)

-- The lambda `is_proper_phase`.
abbrev pub is_proper_phase : Phase → Bool
is_proper_phase θ =
    not (is_negative θ.rational.numerator)
    && ltb (2 * nat_abs θ.rational.numerator) θ.rational.denominator

-- The `while` loop of `properize`, on fuel: the phase, and the complement.
unfoldable pub make_proper : ℕ → Phase → Phase → Phase × Phase
unfolding Phase.sub Phase.add phase
make_proper zero θ complement = (θ, complement)
make_proper (suc fuel) θ complement =
    let rest = make_proper fuel (Phase.sub θ half) (Phase.add complement half) in
    if is_proper_phase θ then (θ, complement) else rest

-- Four rounds are enough: a phase is in (-1, 1].
abbrev pub proper_fuel : ℕ
proper_fuel = 4

-- The loop of `properize`, from the last rotation to the first: the rotations still to be visited stand
-- in reverse order in the view, those visited in `done`.
unfoldable pub properize_rounds :
    ℕ → ConjugationView → List PauliRotation → StabilizerTableau × List PauliRotation
unfolding make_proper absorb_angle phase_of
properize_rounds zero v done = (v.clifford, reverse v.rotations ++ done)
properize_rounds (suc n) v done = elim v.rotations [
  | [] ↦ (v.clifford, done)
  | r ∷ before ↦
      let m = make_proper proper_fuel r.phase (phase_of (pos 0)) in
      let r' = set_phase r m.0 in
      let view : ConjugationView = record v { rotations = before } in
      let kept = properize_rounds n view (r' ∷ done) in
      let absorbed = properize_rounds n (absorb_angle m.1 r' view) (r' ∷ done) in
      if Phase.equal m.1 (phase_of (pos 0)) then kept else absorbed
]

unfoldable pub properize :
    StabilizerTableau → List PauliRotation → StabilizerTableau × List PauliRotation
unfolding properize_rounds merge_rotations remove_identities
properize c rs =
    let merged = merge_rotations rs in
    let p =
      properize_rounds (length merged) (record { clifford = c; rotations = reverse merged }) [] in
    (p.0, remove_identities p.1)
