-- ===== src/Util/OrderedHashtable.antt =====
-- src/util/ordered_hashtable.hpp: a vector of optional entries in the order of insertion, and a map
-- from keys to positions; and what src/util/ordered_hashmap.hpp adds. The hash map is a function
-- from keys, an iterator is a position of the vector, and `end()` is `none`. The vector `_data` is the field `slots`.
pub mod Slots
pub mod Operations
pub mod History
pub mod Comparison
use qsyn.Prelude.{
  ℕ, zero, suc, ◌+◌, ◌*◌, ◌-◌, ◌≡◌, Bool, true, false, not, Option, none, some, List, [], ◌∷◌, ◌++◌,
  length, get_or, set, leb, ◌==◌, ◌&&◌, if◌then◌else◌,
}

pub record OrderedHashtable (K V : Type 0) : Type 0 where
  pub key_to_id : K → Option ℕ
  pub slots : List (Option V)
  pub size : ℕ

module _ {K V : Type 0} where
  abbrev pub hashtable : (K → Option ℕ) → List (Option V) → ℕ → OrderedHashtable K V
  hashtable ids xs n = record { key_to_id = ids; slots = xs; size = n }

module _ {V : Type 0} where
  abbrev pub has_value : Option V → Bool
  has_value none = false
  has_value (some v) = true

  -- The entries in the order of the iterators, which skip the empty slots.
  unfoldable pub elements : List (Option V) → List V
  elements [] = []
  elements (none ∷ xs) = elements xs
  elements (some v ∷ xs) = v ∷ elements xs

  -- `sweep()` without the map: the slots that hold a value.
  unfoldable pub swept : List (Option V) → List (Option V)
  swept [] = []
  swept (none ∷ xs) = swept xs
  swept (some v ∷ xs) = some v ∷ swept xs

module _ {K V : Type 0} (dec : Discrete K) (key : V → K) where
  -- `_key2id[k] = i` and `_key2id.erase(k)`.
  abbrev pub assign : K → Option ℕ → (K → Option ℕ) → K → Option ℕ
  assign k i ids q = elim (dec k q) [ yes e ↦ i | no ne ↦ ids q ]

  unfoldable pub contains : OrderedHashtable K V → K → Bool
  contains t k = elim (t.key_to_id k) [ none ↦ false | some i ↦ has_value (get_or t.slots i none) ]

  unfoldable pub find : OrderedHashtable K V → K → Option ℕ
  find t k = let found = contains t k in if found then t.key_to_id k else none

  unfoldable pub clear : OrderedHashtable K V → OrderedHashtable K V
  clear t = hashtable (λ k. none) [] 0

  -- An entry whose key is there is pushed and popped again, which leaves the vector as it was.
  -- `emplace`, with the iterator and the Boolean that it returns.
  unfoldable pub emplaced : OrderedHashtable K V → V → OrderedHashtable K V
  emplaced t v = elim (t.key_to_id (key v)) [
    | none ↦
        hashtable (assign (key v) (some (length t.slots)) t.key_to_id) (t.slots ++ (some v ∷ []))
          (t.size + 1)
    | some i ↦ t
  ]

  unfoldable pub emplace : OrderedHashtable K V → V → OrderedHashtable K V × Option ℕ × Bool
  emplace t v =
      let t₁ = emplaced t v in
      (t₁, find t₁ (key v), elim (t.key_to_id (key v)) [ none ↦ true | some i ↦ false ])

  -- The loop of `sweep()`: `_key2id[key(*_data[i])] = i` from the index `i` on.
  unfoldable pub reindex : ℕ → List (Option V) → (K → Option ℕ) → K → Option ℕ
  reindex i [] ids = ids
  reindex i (none ∷ xs) ids = reindex (i + 1) xs ids
  reindex i (some v ∷ xs) ids = reindex (i + 1) xs (assign (key v) (some i) ids)

  unfoldable pub sweep : OrderedHashtable K V → OrderedHashtable K V
  sweep t = let xs = swept t.slots in hashtable (reindex 0 xs t.key_to_id) xs t.size

  -- `erase`, past its test whether the key is there.
  unfoldable pub erased : OrderedHashtable K V → K → ℕ → OrderedHashtable K V
  erased t k i =
      let t₁ = hashtable (assign k none t.key_to_id) (set t.slots i none) (t.size - 1) in
      if leb (t₁.size * 4) (length t₁.slots) then sweep t₁ else t₁

  unfoldable pub erase : OrderedHashtable K V → K → OrderedHashtable K V × ℕ
  erase t k = elim (find t k) [ none ↦ (t, 0) | some i ↦ (erased t k i, 1) ]

  -- `any_of(begin(), end(), ...)` over the entries.
  unfoldable pub any_entry : (V → Bool) → List V → Bool
  any_entry f [] = false
  any_entry f (v ∷ vs) = let rest = any_entry f vs in if f v then true else rest

-- `operator==`. It passes each item of the one table to the `contains` of the other, which takes a key:
-- it can be called only where the items are their keys, as in ordered_hashset.
module _ {K : Type 0} (dec : Discrete K) where
  unfoldable pub equal : OrderedHashtable K K → OrderedHashtable K K → Bool
  equal t u =
      if not (t.size == u.size)
      then false
      else any_entry dec (λ item. item) (λ item. contains dec (λ k. k) u item) (elements t.slots)
