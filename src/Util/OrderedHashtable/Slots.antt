-- ===== src/Util/OrderedHashtable/Slots.antt =====
-- The slots of an ordered hash table: where a key stands, and how writes move it.
use qsyn.Prelude.{
  ℕ, zero, suc, ◌+◌, ◌≡◌, refl, ap, Option, none, some, List, [], ◌∷◌, ◌++◌, length, get_or, set,
  arith, ◌↔◌, Option-cases,
}
use qsyn.Util.OrderedHashtable.{elements, swept, reindex, assign}
use mathlib.Core.Option

module _ {V : Type 0} where
  pub elements-append :
      (xs : List (Option V)) (v : V) → elements (xs ++ (some v ∷ [])) ≡ elements xs ++ (v ∷ [])
  unfolding elements
  elements-append [] v = refl
  elements-append (none ∷ xs) v = elements-append xs v
  elements-append (some w ∷ xs) v = ap (◌∷◌ w) (elements-append xs v)

  pub elements-swept : (xs : List (Option V)) → elements (swept xs) ≡ elements xs
  unfolding elements swept
  elements-swept [] = refl
  elements-swept (none ∷ xs) = elements-swept xs
  elements-swept (some w ∷ xs) = ap (◌∷◌ w) (elements-swept xs)

  pub length-swept : (xs : List (Option V)) → length (swept xs) ≡ length (elements xs)
  unfolding elements swept
  length-swept [] = refl
  length-swept (none ∷ xs) = length-swept xs
  length-swept (some w ∷ xs) = ap suc (length-swept xs)

module _ {K V : Type 0} (dec : Discrete K) (key : V → K) where
  -- The first slot whose entry has the key.
  unfoldable pub position : List (Option V) → K → Option ℕ
  position [] k = none
  position (none ∷ xs) k = Option.map suc (position xs k)
  position (some v ∷ xs) k = elim (dec (key v) k) [
    | yes e ↦ some 0
    | no ne ↦ Option.map suc (position xs k)
  ]

  -- No key stands in two slots.
  unfoldable pub AreDistinct : List (Option V) → Type 0
  AreDistinct [] = Unit
  AreDistinct (none ∷ xs) = AreDistinct xs
  AreDistinct (some v ∷ xs) = (position xs (key v) ≡ none) × AreDistinct xs

  -- The dictionary that the slots stand for: its entry for a key, and all entries but this.
  unfoldable pub entry : List V → K → Option V
  entry [] k = none
  entry (v ∷ vs) k = elim (dec (key v) k) [ yes e ↦ some v | no ne ↦ entry vs k ]

  unfoldable pub without : K → List V → List V
  without k [] = []
  without k (v ∷ vs) =
      let rest = without k vs in elim (dec (key v) k) [ yes e ↦ rest | no ne ↦ v ∷ rest ]

  pub position-append :
      (xs : List (Option V)) (v : V) (k : K)
      → position xs (key v) ≡ none
      → position (xs ++ (some v ∷ [])) k
        ≡ elim (dec (key v) k) [ yes e ↦ some (length xs) | no ne ↦ position xs k ]
  unfolding position
  position-append [] v k absent = refl
  position-append (none ∷ xs) v k absent =
      ground (arith, position-append xs v k, Option-cases (position xs (key v)))
  position-append (some w ∷ xs) v k absent =
      ground (arith, position-append xs v k, Option-cases (position xs (key v)))

  pub position-at :
      (xs : List (Option V)) (k : K) (i : ℕ)
      → position xs k ≡ some i
      → (v : V) × (get_or xs i none ≡ some v) × (key v ≡ k)
  unfolding position
  position-at [] k i e = ground arith
  position-at (none ∷ xs) k zero e = ground (arith, Option-cases (position xs k))
  position-at (none ∷ xs) k (suc i) e =
      position-at xs k i (ground (arith, Option-cases (position xs k)))
  position-at (some v ∷ xs) k zero e = elim (dec (key v) k) [
    | yes p ↦ (v, refl, p)
    | no np ↦ ground (arith, Option-cases (position xs k))
  ]
  position-at (some v ∷ xs) k (suc i) e =
      position-at xs k i (ground (arith, Option-cases (position xs k)))

  pub position-erase :
      (xs : List (Option V)) (k q : K) (i : ℕ)
      → AreDistinct xs
      → position xs k ≡ some i
      → position (set xs i none) q ≡ elim (dec k q) [ yes e ↦ none | no ne ↦ position xs q ]
  unfolding position AreDistinct
  position-erase [] k q i d e = ground arith
  position-erase (none ∷ xs) k q zero d e = ground (arith, Option-cases (position xs k))
  position-erase (none ∷ xs) k q (suc i) d e = ground (arith, position-erase xs k q i)
  position-erase (some v ∷ xs) k q zero d e = ground (
    arith,
    Option-cases (position xs k),
    Option-cases (position xs q),
    Option-cases (position xs (key v)),
  )
  position-erase (some v ∷ xs) k q (suc i) d e = ground (arith, position-erase xs k q i)

  pub append-AreDistinct :
      (xs : List (Option V)) (v : V)
      → AreDistinct xs
      → position xs (key v) ≡ none
      → AreDistinct (xs ++ (some v ∷ []))
  unfolding AreDistinct position
  append-AreDistinct [] v d absent = (refl, tt)
  append-AreDistinct (none ∷ xs) v d absent =
      append-AreDistinct xs v d (ground (arith, Option-cases (position xs (key v))))
  append-AreDistinct (some w ∷ xs) v d absent =
      let later : position xs (key v) ≡ none = ground (arith, Option-cases (position xs (key v))) in
      (ground (arith, position-append xs v (key w) later, d.0), append-AreDistinct xs v d.1 later)

  pub erase-AreDistinct :
      (xs : List (Option V)) (k : K) (i : ℕ)
      → AreDistinct xs
      → position xs k ≡ some i
      → AreDistinct (set xs i none)
  unfolding AreDistinct position
  erase-AreDistinct [] k i d e = tt
  erase-AreDistinct (none ∷ xs) k zero d e = d
  erase-AreDistinct (none ∷ xs) k (suc i) d e =
      erase-AreDistinct xs k i d (ground (arith, Option-cases (position xs k)))
  erase-AreDistinct (some v ∷ xs) k zero d e = d.1
  erase-AreDistinct (some v ∷ xs) k (suc i) d e =
      let later : position xs k ≡ some i = ground (arith, Option-cases (position xs k)) in
      (
        ground (arith, position-erase xs k (key v) i d.1 later, d.0),
        erase-AreDistinct xs k i d.1 later,
      )

  -- `sweep()` keeps the keys, each once.
  pub position-swept-none :
      (xs : List (Option V)) (k : K) → (position (swept xs) k ≡ none) ↔ (position xs k ≡ none)
  unfolding position swept
  position-swept-none [] k = (λ e. e, λ e. e)
  position-swept-none (none ∷ xs) k = ground (
    arith,
    position-swept-none xs k,
    Option-cases (position xs k),
    Option-cases (position (swept xs) k),
  )
  position-swept-none (some v ∷ xs) k = ground (
    arith,
    position-swept-none xs k,
    Option-cases (position xs k),
    Option-cases (position (swept xs) k),
  )

  pub swept-AreDistinct : (xs : List (Option V)) → AreDistinct xs → AreDistinct (swept xs)
  unfolding AreDistinct swept
  swept-AreDistinct [] d = tt
  swept-AreDistinct (none ∷ xs) d = swept-AreDistinct xs d
  swept-AreDistinct (some v ∷ xs) d =
      ((position-swept-none xs (key v)).1 d.0, swept-AreDistinct xs d.1)

  -- The loop of `sweep()` writes the position of every key that stands in a slot.
  pub reindex_lem :
      (i : ℕ) (xs : List (Option V)) (ids : K → Option ℕ) (k : K)
      → AreDistinct xs
      → reindex dec key i xs ids k ≡ elim (position xs k) [ none ↦ ids k | some j ↦ some (i + j) ]
  unfolding reindex AreDistinct position
  reindex_lem i [] ids k d = refl
  reindex_lem i (none ∷ xs) ids k d =
      ground (arith, reindex_lem (i + 1) xs ids k d, Option-cases (position xs k))
  reindex_lem i (some v ∷ xs) ids k d = ground (
    arith,
    d.0,
    reindex_lem (i + 1) xs (assign dec key (key v) (some i) ids) k d.1,
    Option-cases (position xs k),
  )

  -- Writes to the vector on the dictionary that it stands for.
  pub without_absent :
      (xs : List (Option V)) (k : K) → position xs k ≡ none → without k (elements xs) ≡ elements xs
  unfolding elements without position
  without_absent [] k e = refl
  without_absent (none ∷ xs) k e =
      without_absent xs k (ground (arith, Option-cases (position xs k)))
  without_absent (some v ∷ xs) k e =
      ground (arith, without_absent xs k, Option-cases (position xs k))

  pub elements-erase :
      (xs : List (Option V)) (k : K) (i : ℕ)
      → AreDistinct xs
      → position xs k ≡ some i
      → elements (set xs i none) ≡ without k (elements xs)
  unfolding elements without position AreDistinct
  elements-erase [] k i d e = refl
  elements-erase (none ∷ xs) k zero d e = ground (arith, Option-cases (position xs k))
  elements-erase (none ∷ xs) k (suc i) d e =
      elements-erase xs k i d (ground (arith, Option-cases (position xs k)))
  elements-erase (some v ∷ xs) k zero d e =
      ground (arith, d.0, without_absent xs k, Option-cases (position xs k))
  elements-erase (some v ∷ xs) k (suc i) d e =
      ground (arith, elements-erase xs k i d.1, Option-cases (position xs k))

  pub length-elements-erase :
      (xs : List (Option V)) (k : K) (i : ℕ)
      → position xs k ≡ some i
      → length (elements (set xs i none)) + 1 ≡ length (elements xs)
  unfolding elements position
  length-elements-erase [] k i e = ground arith
  length-elements-erase (none ∷ xs) k zero e = ground (arith, Option-cases (position xs k))
  length-elements-erase (none ∷ xs) k (suc i) e =
      length-elements-erase xs k i (ground (arith, Option-cases (position xs k)))
  length-elements-erase (some v ∷ xs) k zero e = ground arith
  length-elements-erase (some v ∷ xs) k (suc i) e =
      ground (arith, length-elements-erase xs k i, Option-cases (position xs k))

  pub entry-elements :
      (xs : List (Option V)) (k : K)
      → entry (elements xs) k ≡ elim (position xs k) [ none ↦ none | some i ↦ get_or xs i none ]
  unfolding elements entry position
  entry-elements [] k = refl
  entry-elements (none ∷ xs) k = ground (arith, entry-elements xs k, Option-cases (position xs k))
  entry-elements (some v ∷ xs) k = ground (arith, entry-elements xs k, Option-cases (position xs k))
