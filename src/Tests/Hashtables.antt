-- ===== src/Tests/Hashtables.antt =====
-- Ordered hash tables at concrete inputs: maps from numbers to numbers, and sets.
use qsyn.Prelude.{ℕ, ◌+◌, ◌≡◌, ◌↔◌, refl, true, false, none, List, [], ◌∷◌, map, length}
use native.Mathlib.Decide.{ℕ_discrete}
use qsyn.Util.OrderedHashtable.{
  OrderedHashtable, hashtable, emplaced, erased, elements, contains, find, emplace, erase, clear,
  equal, any_entry,
}
use qsyn.Util.OrderedHashtable.Slots.{without}
use qsyn.Util.OrderedHashtable.Operations.{IsValid, clear-IsValid}
use qsyn.Util.OrderedHashtable.History.{Operation, run, step, entries_run, elements-run, erase_lem}
use qsyn.Util.OrderedHashtable.Comparison.{equal_iff}

abbrev pub first : ℕ × ℕ → ℕ
first e = e.0

abbrev no_entries : OrderedHashtable ℕ (ℕ × ℕ)
no_entries = clear ℕ_discrete first (hashtable (λ k. none) [] 0)

no_entries-IsValid : IsValid ℕ_discrete first no_entries
no_entries-IsValid = clear-IsValid ℕ_discrete first (hashtable (λ k. none) [] 0)

abbrev calls : List (Operation ℕ (ℕ × ℕ))
calls =
    Operation.emplaces (3, 7)
    ∷ Operation.emplaces (5, 8)
    ∷ Operation.emplaces (3, 9)
    ∷ Operation.erases 5
    ∷ Operation.emplaces (4, 1)
    ∷ []

abbrev two_entries : OrderedHashtable ℕ (ℕ × ℕ)
two_entries = run ℕ_discrete first no_entries calls

two_entries-IsValid : IsValid ℕ_discrete first two_entries
two_entries-IsValid = (elements-run ℕ_discrete first no_entries calls no_entries-IsValid).0

-- The calls leave the entries in the order of insertion, the second value for 3 refused.
two_entries_are : elements two_entries.slots ≡ (3, 7) ∷ (4, 1) ∷ []
unfolding run elements step emplace emplaced erase find contains clear ℕ_discrete erased
two_entries_are = refl

elements-run_example :
    IsValid ℕ_discrete first two_entries
    × (elements two_entries.slots ≡ entries_run ℕ_discrete first (elements no_entries.slots) calls)
elements-run_example = elements-run ℕ_discrete first no_entries calls no_entries-IsValid

erase_lem_example :
    IsValid ℕ_discrete first (erase ℕ_discrete first two_entries 3).0
    × (elements (erase ℕ_discrete first two_entries 3).0.slots
        ≡ without ℕ_discrete first 3 (elements two_entries.slots))
    × ((erase ℕ_discrete first two_entries 3).1
          + length (elements (erase ℕ_discrete first two_entries 3).0.slots)
        ≡ length (elements two_entries.slots))
erase_lem_example = erase_lem ℕ_discrete first two_entries 3 two_entries-IsValid

abbrev of_numbers : List ℕ → OrderedHashtable ℕ ℕ
of_numbers ks = run ℕ_discrete (λ k. k) (hashtable (λ k. none) [] 0) (map Operation.emplaces ks)

of_numbers-IsValid : (ks : List ℕ) → IsValid ℕ_discrete (λ k. k) (of_numbers ks)
unfolding clear
of_numbers-IsValid ks =
    (elements-run ℕ_discrete (λ k. k) (hashtable (λ k. none) [] 0) (map Operation.emplaces ks)
      (clear-IsValid ℕ_discrete (λ k. k) (hashtable (λ k. none) [] 0))).0

abbrev three_four : OrderedHashtable ℕ ℕ
three_four = of_numbers (3 ∷ 4 ∷ [])

abbrev four_five : OrderedHashtable ℕ ℕ
four_five = of_numbers (4 ∷ 5 ∷ [])

-- Two different sets that compare equal, and an empty one that is not equal to itself.
one_shared : equal ℕ_discrete three_four four_five ≡ true
unfolding equal any_entry run elements step emplace emplaced find contains clear ℕ_discrete
one_shared = refl

empty_differs : equal ℕ_discrete (of_numbers []) (of_numbers []) ≡ false
unfolding equal any_entry run elements step emplace emplaced find contains clear ℕ_discrete
empty_differs = refl

equal_iff_example : (equal ℕ_discrete three_four four_five ≡ true) ↔ (
    (three_four.size ≡ four_five.size)
    × ((k : ℕ) × (contains ℕ_discrete (λ k. k) three_four k ≡ true)
        × (contains ℕ_discrete (λ k. k) four_five k ≡ true)))
equal_iff_example = equal_iff ℕ_discrete three_four four_five (of_numbers-IsValid (3 ∷ 4 ∷ []))
