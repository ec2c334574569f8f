-- ===== src/Tableau/Synthesis/Record/Diagonal.antt =====
-- `HOptSynthesisStrategy::synthesize` keeps the record too.
use qsyn.Prelude.{
  ℕ, zero, suc, ◌+◌, ◌<◌, ◌≤◌, ◌≢◌, refl, arith, Bool, if◌then◌else◌, Bool-cases, inl, inr, List,
  [], ◌∷◌, reverse,
}
use mathlib.Core.List.{reverse_aux}
use qsyn.Pauli.Product
use qsyn.Pauli.Trait.{apply}
use qsyn.Tableau.Stabilizer.{StabilizerTableau, n_qubits, stabilizer_tableau, stabilizer}
use qsyn.Tableau.Stabilizer.Rows.{IsWellFormed}
use qsyn.Tableau.Synthesis.{Building, add_cx, add_s}
use qsyn.Tableau.Synthesis.AaronsonGottesman
use qsyn.Tableau.Synthesis.AaronsonGottesman.{start, qubits, stab_z_set}
use qsyn.Tableau.Synthesis.HOpt.{
  Mode, star, staircase, qubits_set_from, add_star, add_staircase, add_cxs, diagonalize_on,
  diagonalize_row, diagonalize_from, diagonalize,
}
use qsyn.Tableau.Synthesis.Record.{
  IsRecord, add_cx-IsRecord, add_h-IsRecord, add_s-IsRecord, if-IsRecord, qubits-eq,
}

-- The qubits of a list rise from a bound and stay below n.
abbrev IsRising : ℕ → ℕ → List ℕ → Type 0
IsRising n lo [] = Unit {0}
IsRising n lo (k ∷ ks) = (lo ≤ k) × (k < n) × IsRising n (suc k) ks

-- Neighbours in a list are distinct qubits below n.
abbrev IsLinked : ℕ → List ℕ → Type 0
IsLinked n [] = Unit {0}
IsLinked n (k ∷ []) = k < n
IsLinked n (k ∷ l ∷ ks) = (k < n) × (l ≢ k) × IsLinked n (l ∷ ks)

IsRising-weaken : (n lo lo' : ℕ) (ks : List ℕ) → lo' ≤ lo → IsRising n lo ks → IsRising n lo' ks
IsRising-weaken n lo lo' [] h r = tt
IsRising-weaken n lo lo' (k ∷ ks) h r = (omega arith, r.1, r.2)

qubits_set_from-IsRising :
    (rounds i n : ℕ) (b : Building) (q : ℕ)
    → i + rounds ≤ n
    → IsRising n i (qubits_set_from rounds i b q)
unfolding qubits_set_from
qubits_set_from-IsRising zero i n b q h = tt
qubits_set_from-IsRising (suc rounds) i n b q h =
    let rest = qubits_set_from-IsRising rounds (i + 1) n b q (omega arith) in
    elim (Bool-cases (Product.is_x_set (stabilizer b.copy q) i)) [
      | inl e ↦ rw e (
        omega arith,
        omega arith,
        IsRising-weaken n (i + 1) (suc i) (qubits_set_from rounds (i + 1) b q) (omega arith) rest,
      )
      | inr e ↦
          rw e (IsRising-weaken n (i + 1) i (qubits_set_from rounds (i + 1) b q) (omega arith) rest)
    ]

reverse-IsLinked :
    (n lo : ℕ) (ks acc : List ℕ)
    → IsRising n (suc lo) ks
    → IsLinked n (lo ∷ acc)
    → IsLinked n (reverse_aux ks (lo ∷ acc))
reverse-IsLinked n lo [] acc r l = l
reverse-IsLinked n lo (k ∷ ks) acc r l =
    reverse-IsLinked n k ks (lo ∷ acc) r.2 (r.1, omega arith, l)

module _ (n : ℕ) (t : StabilizerTableau) where
  abbrev R : Building → Type 0
  R = IsRecord n t

  add_star-R :
      (ctrl : ℕ) (targs : List ℕ) (b : Building)
      → ctrl < n
      → (lo : ℕ) → ctrl < lo
      → IsRising n lo targs
      → R b
      → R (add_star ctrl targs b)
  add_star-R ctrl [] b c_in lo h rise r = r
  add_star-R ctrl (targ ∷ targs) b c_in lo h rise r =
      add_star-R ctrl targs (add_cx ctrl targ b) c_in (suc targ) (omega arith) rise.2
        (add_cx-IsRecord n t ctrl targ b c_in rise.1 (omega arith) r)

  add_staircase-R : (ks : List ℕ) (b : Building) → IsLinked n ks → R b → R (add_staircase ks b)
  add_staircase-R [] b l r = r
  add_staircase-R (k ∷ []) b l r = r
  add_staircase-R (k ∷ c ∷ []) b l r = add_cx-IsRecord n t c k b l.2 l.0 l.1 r
  add_staircase-R (k ∷ c ∷ d ∷ ks) b l r =
      add_staircase-R (c ∷ d ∷ ks) (add_cx c k b) l.2 (add_cx-IsRecord n t c k b l.2.0 l.0 l.1 r)

  diagonalize_on-R :
      (mode : Mode) (i : ℕ) (ks : List ℕ) (b : Building)
      → IsRising n 0 ks
      → R b
      → R (diagonalize_on mode i ks b)
  diagonalize_on-R mode i [] b rise r = r
  diagonalize_on-R mode i (ctrl ∷ targs) b rise r =
      let b₁ = add_cxs mode ctrl targs b in
      let r₁ : R b₁ = cxs mode in
      add_h-IsRecord n t ctrl (if stab_z_set b₁ i ctrl then add_s ctrl b₁ else b₁) (
        if-IsRecord n t (stab_z_set b₁ i ctrl) (add_s ctrl b₁) b₁ (add_s-IsRecord n t ctrl b₁ r₁)
          r₁)
    where
      cxs : (mode : Mode) → R (add_cxs mode ctrl targs b)
      cxs star = add_star-R ctrl targs b rise.1 (suc ctrl) (omega arith) rise.2 r
      cxs staircase =
          add_staircase-R (reverse (ctrl ∷ targs)) b
            (reverse-IsLinked n ctrl targs [] rise.2 rise.1) r

  diagonalize_row-R : (mode : Mode) (i : ℕ) (b : Building) → R b → R (diagonalize_row mode i b)
  unfolding diagonalize_row
  diagonalize_row-R mode i b r =
      diagonalize_on-R mode i (qubits_set_from (qubits b) 0 b i) b
        (qubits_set_from-IsRising (qubits b) 0 n b i (omega (arith, qubits-eq n t b r))) r

  diagonalize_from-R :
      (mode : Mode) (stop : ℕ → Bool) (rounds i : ℕ) (b : Building)
      → R b
      → R (diagonalize_from mode stop rounds i b)
  unfolding diagonalize_from
  diagonalize_from-R mode stop zero i b r = r
  diagonalize_from-R mode stop (suc rounds) i b r =
      if-IsRecord n t (stop i) b
        (diagonalize_from mode stop rounds (i + 1) (diagonalize_row mode i b)) r
        (diagonalize_from-R mode stop rounds (i + 1) (diagonalize_row mode i b)
          (diagonalize_row-R mode i b r))

  pub diagonalize-IsRecord :
      (mode : Mode) (stop : ℕ → Bool) → IsWellFormed n t → IsRecord n t (diagonalize mode stop t)
  unfolding diagonalize start
  diagonalize-IsRecord mode stop w =
      diagonalize_from-R mode stop (n_qubits t) 0 (start t)
        (record { leads = unfold apply in refl; valid = tt; well_formed = w })
