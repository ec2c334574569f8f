-- ===== src/Util/OrderedHashmap.antt =====
-- What src/util/ordered_hashmap.hpp adds to the table: the entries are pairs of a key and a value.
pub mod Writes
pub mod Values
pub mod Index
use qsyn.Prelude.{
  ℕ, ◌+◌, Bool, true, false, Option, none, some, List, [], ◌∷◌, ◌++◌, length, get_or, set,
  if◌then◌else◌,
}
use qsyn.Util.OrderedHashtable.{OrderedHashtable, hashtable, contains, find, emplaced}

module _ {K T : Type 0} where
  -- `key(value)`.
  abbrev pub key : K × T → K
  key e = e.0

  abbrev pub value_in : Option (K × T) → Option T
  value_in none = none
  value_in (some e) = some e.1

module _ {K : Type 0} (dec : Discrete K) where
  -- `std::unordered_map::emplace`, which leaves a key that is there.
  abbrev pub emplace_id : K → ℕ → (K → Option ℕ) → K → Option ℕ
  emplace_id k i ids q = elim (ids k) [
    | none ↦ elim (dec k q) [ yes e ↦ some i | no ne ↦ ids q ]
    | some j ↦ ids q
  ]

module _ {K T : Type 0} (dec : Discrete K) where
  -- `at`, which throws on a missing key: `none`.
  unfoldable pub at : OrderedHashtable K (K × T) → K → Option T
  at t k = elim (find dec key t k) [ none ↦ none | some i ↦ value_in (get_or t.slots i none) ]

  -- `operator[]`, with the value that the constructor of `T` makes.
  unfoldable pub index : OrderedHashtable K (K × T) → K → T → OrderedHashtable K (K × T) × Option T
  unfolding at
  index t k initial =
      let t₁ = if contains dec key t k then t else emplaced dec key t (k, initial) in (t₁, at t₁ k)

  unfoldable pub try_emplace :
      OrderedHashtable K (K × T) → K → T → OrderedHashtable K (K × T) × Option ℕ × Bool
  try_emplace t k v =
      let t₁ =
        hashtable (emplace_id dec k (length t.slots) t.key_to_id) (t.slots ++ (some (k, v) ∷ []))
          (t.size + 1) in
      elim (find dec key t k) [ some i ↦ (t, some i, false) | none ↦ (t₁, find dec key t₁ k, true) ]

  -- `insert_or_assign`: the value at the iterator is replaced when nothing was emplaced.
  abbrev pub assign_value : OrderedHashtable K (K × T) → ℕ → T → OrderedHashtable K (K × T)
  assign_value t i v = record t {
    slots = elim (get_or t.slots i none) [
      | none ↦ t.slots
      | some e ↦ set t.slots i (some (e.0, v))
    ];
  }

  abbrev pub assign_result :
      OrderedHashtable K (K × T) × Option ℕ × Bool → T → OrderedHashtable K (K × T)
  assign_result ret v =
      if ret.2 then ret.0 else elim ret.1 [ none ↦ ret.0 | some i ↦ assign_value ret.0 i v ]

  unfoldable pub insert_or_assign : OrderedHashtable K (K × T) → K → T → OrderedHashtable K (K × T)
  unfolding try_emplace
  insert_or_assign t k v = assign_result (try_emplace t k v) v
