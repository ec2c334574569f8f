-- ===== src/Util/OrderedHashmap/Writes.antt =====
-- Writes to the slots of an ordered hash map.
use qsyn.Prelude.{
  ℕ, zero, suc, ◌≡◌, ◌∙◌, refl, sym, ap, Option, none, some, List, [], ◌∷◌, ◌++◌, length, get_or,
  set, arith, Option-cases,
}
use mathlib.Core.Option
use qsyn.Util.OrderedHashtable.{elements}
use qsyn.Util.OrderedHashtable.Slots.{position, AreDistinct}

module _ {K V : Type 0} (dec : Discrete K) (key : V → K) where
  -- A write that keeps the key of a slot.
  pub position-set :
      (xs : List (Option V)) (k q : K) (i : ℕ) (v : V)
      → position dec key xs k ≡ some i
      → key v ≡ k
      → position dec key (set xs i (some v)) q ≡ position dec key xs q
  unfolding position
  position-set [] k q i v e same = refl
  position-set (none ∷ xs) k q zero v e same = ground (arith, Option-cases (position dec key xs k))
  position-set (none ∷ xs) k q (suc i) v e same =
      ap (Option.map suc)
        (position-set xs k q i v (ground (arith, Option-cases (position dec key xs k))) same)
  position-set (some w ∷ xs) k q zero v e same =
      ground (arith, Option-cases (position dec key xs k))
  position-set (some w ∷ xs) k q (suc i) v e same =
      ground (arith, position-set xs k q i v, Option-cases (position dec key xs k))

  pub set-AreDistinct :
      (xs : List (Option V)) (k : K) (i : ℕ) (v : V)
      → position dec key xs k ≡ some i
      → key v ≡ k
      → AreDistinct dec key xs
      → AreDistinct dec key (set xs i (some v))
  unfolding position AreDistinct
  set-AreDistinct [] k i v e same d = d
  set-AreDistinct (none ∷ xs) k zero v e same d =
      ground (arith, Option-cases (position dec key xs k))
  set-AreDistinct (none ∷ xs) k (suc i) v e same d =
      set-AreDistinct xs k i v (ground (arith, Option-cases (position dec key xs k))) same d
  set-AreDistinct (some w ∷ xs) k zero v e same d =
      (ground (arith, d.0, Option-cases (position dec key xs k)), d.1)
  set-AreDistinct (some w ∷ xs) k (suc i) v e same d =
      let later : position dec key xs k ≡ some i =
        ground (arith, Option-cases (position dec key xs k)) in
      (position-set xs k (key w) i v later same ∙ d.0, set-AreDistinct xs k i v later same d.1)

  pub length-elements-set :
      (xs : List (Option V)) (k : K) (i : ℕ) (v : V)
      → position dec key xs k ≡ some i
      → length (elements (set xs i (some v))) ≡ length (elements xs)
  unfolding position elements
  length-elements-set [] k i v e = refl
  length-elements-set (none ∷ xs) k zero v e = ground (arith, Option-cases (position dec key xs k))
  length-elements-set (none ∷ xs) k (suc i) v e =
      length-elements-set xs k i v (ground (arith, Option-cases (position dec key xs k)))
  length-elements-set (some w ∷ xs) k zero v e = refl
  length-elements-set (some w ∷ xs) k (suc i) v e =
      ap suc (length-elements-set xs k i v (ground (arith, Option-cases (position dec key xs k))))

pub get_or-set_held :
    {V : Type 0} (xs : List (Option V)) (i : ℕ) (w : Option V) (e : V)
    → get_or xs i none ≡ some e
    → get_or (set xs i w) i none ≡ w
get_or-set_held [] i w e h = ground arith
get_or-set_held (x ∷ xs) zero w e h = refl
get_or-set_held (x ∷ xs) (suc i) w e h = get_or-set_held xs i w e h

pub get_or-append_held :
    {V : Type 0} (xs ys : List (Option V)) (i : ℕ) (e : V)
    → get_or xs i none ≡ some e
    → get_or (xs ++ ys) i none ≡ some e
get_or-append_held [] ys i e h = ground arith
get_or-append_held (x ∷ xs) ys zero e h = h
get_or-append_held (x ∷ xs) ys (suc i) e h = get_or-append_held xs ys i e h

pub get_or-append_last :
    {V : Type 0} (xs : List (Option V)) (w : Option V)
    → get_or (xs ++ (w ∷ [])) (length xs) none ≡ w
get_or-append_last [] w = refl
get_or-append_last (x ∷ xs) w = get_or-append_last xs w

pub held_key :
    {K T : Type 0} (xs : List (Option (K × T))) (i j : ℕ) (u e : K × T)
    → i ≡ j
    → get_or xs j none ≡ some u
    → get_or xs i none ≡ some e
    → u.0 ≡ e.0
held_key xs i j u e p read held =
    let one : some u ≡ some e = sym read ∙ sym (ap (λ n. get_or xs n none) p) ∙ held in
    ground (arith, one)
