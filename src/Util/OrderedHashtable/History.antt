-- ===== src/Util/OrderedHashtable/History.antt =====
-- Histories of calls on an ordered hash table, against a list of entries in the order of insertion.
use qsyn.Prelude.{
  ℕ, ◌+◌, ◌≡◌, refl, sym, ap, ◌∙◌, Bool, true, false, not, Option, none, some, List, [], ◌∷◌,
  length, get_or, arith, inl, inr, Option-cases,
}
use qsyn.Util.OrderedHashtable.{
  OrderedHashtable, elements, find, contains, clear, emplace, sweep, erased, erase,
}
use qsyn.Util.OrderedHashtable.Slots.{
  position, entry, without, without_absent, position-at, entry-elements, elements-swept,
  elements-erase, length-elements-erase,
}
use qsyn.Util.OrderedHashtable.Operations.{
  IsValid, find-position, clear-IsValid, inserted, emplaced-IsValid, elements-emplaced,
  sweep-IsValid, erased-IsValid, elements-erased,
}

pub data Operation (K V : Type 0) : Type 0 where
  emplaces : V → Operation K V
  erases : K → Operation K V
  sweeps : Operation K V
  clears : Operation K V

-- The entry at an iterator, which `end()` does not have.
unfoldable pub value_at : {K V : Type 0} → OrderedHashtable K V → Option ℕ → Option V
value_at t none = none
value_at t (some i) = get_or t.slots i none

abbrev pub is_some : {V : Type 0} → Option V → Bool
is_some none = false
is_some (some v) = true

module _ {K V : Type 0} (dec : Discrete K) (key : V → K) where
  unfoldable pub step : OrderedHashtable K V → Operation K V → OrderedHashtable K V
  step t (Operation.emplaces v) = (emplace dec key t v).0
  step t (Operation.erases k) = (erase dec key t k).0
  step t Operation.sweeps = sweep dec key t
  step t Operation.clears = clear dec key t

  unfoldable pub run : OrderedHashtable K V → List (Operation K V) → OrderedHashtable K V
  run t [] = t
  run t (op ∷ ops) = run (step t op) ops

  -- The same calls on the list of entries.
  unfoldable pub entries_step : List V → Operation K V → List V
  entries_step vs (Operation.emplaces v) = inserted dec key v vs
  entries_step vs (Operation.erases k) = without dec key k vs
  entries_step vs Operation.sweeps = vs
  entries_step vs Operation.clears = []

  unfoldable pub entries_run : List V → List (Operation K V) → List V
  entries_run vs [] = vs
  entries_run vs (op ∷ ops) = entries_run (entries_step vs op) ops

  -- On a valid table the iterator of `find` reads the entry of the key in the list of entries, and is
  -- `end()` or reads nothing when there is none.
  pub find-entry :
      (t : OrderedHashtable K V) (k : K)
      → IsValid dec key t
      → value_at t (find dec key t k) ≡ entry dec key (elements t.slots) k
  unfolding value_at
  find-entry t k valid =
      ap (value_at t) (find-position dec key t k valid)
      ∙ elim (Option-cases (position dec key t.slots k)) [
        | inl absent ↦ rw (absent) refl
        | inr (i, here) ↦ rw (here) refl
      ]
      ∙ sym (entry-elements dec key t.slots k)

  -- On a valid table `contains` says whether the dictionary has an entry for the key.
  pub contains-entry :
      (t : OrderedHashtable K V) (k : K)
      → IsValid dec key t
      → contains dec key t k ≡ is_some (entry dec key (elements t.slots) k)
  unfolding contains
  contains-entry t k valid =
      rw (valid.ids k, entry-elements dec key t.slots k, contains)
        (elim (Option-cases (position dec key t.slots k)) [
          | inl absent ↦ rw (absent) refl
          | inr (i, here) ↦
              let (v, held, same) = position-at dec key t.slots k i here in rw (here, held) refl
        ])

  -- `emplace` keeps a table valid, appends an entry with a new key and nothing else, and returns
  -- whether there was no entry for the key.
  pub emplace_lem :
      (t : OrderedHashtable K V) (v : V)
      → IsValid dec key t
      → IsValid dec key (emplace dec key t v).0
        × (elements (emplace dec key t v).0.slots ≡ inserted dec key v (elements t.slots))
        × ((emplace dec key t v).2 ≡ not (is_some (entry dec key (elements t.slots) (key v))))
  unfolding emplace
  emplace_lem t v valid = (
    emplaced-IsValid dec key t v valid,
    elements-emplaced dec key t v valid,
    rw (valid.ids (key v), entry-elements dec key t.slots (key v))
        (elim (Option-cases (position dec key t.slots (key v))) [
          | inl absent ↦ rw (absent) refl
          | inr (i, here) ↦
              let (w, held, same) = position-at dec key t.slots (key v) i here in
              rw (here, held) refl
        ]),
  )

  erase_missing :
      (t : OrderedHashtable K V) (k : K) → find dec key t k ≡ none → erase dec key t k ≡ (t, 0)
  unfolding erase
  erase_missing t k e = rw (e, erase) refl

  erase_found :
      (t : OrderedHashtable K V) (k : K) (i : ℕ)
      → find dec key t k ≡ some i
      → erase dec key t k ≡ (erased dec key t k i, 1)
  unfolding erase
  erase_found t k i e = rw (e, erase) refl

  -- `erase` keeps a table valid, removes the entry of the key and nothing else, and returns the number
  -- of entries removed.
  pub erase_lem :
      (t : OrderedHashtable K V) (k : K)
      → IsValid dec key t
      → IsValid dec key (erase dec key t k).0
        × (elements (erase dec key t k).0.slots ≡ without dec key k (elements t.slots))
        × ((erase dec key t k).1 + length (elements (erase dec key t k).0.slots)
            ≡ length (elements t.slots))
  erase_lem t k valid =
      let found = find-position dec key t k valid in
      elim (Option-cases (position dec key t.slots k)) [
        | inl absent ↦
            rw (erase_missing t k (found ∙ absent))
              (valid, sym (without_absent dec key t.slots k absent), omega arith)
        | inr (i, here) ↦ rw (erase_found t k i (found ∙ here)) (
          erased-IsValid dec key t k i valid here,
          elements-erased dec key t k i valid here,
          omega (
            arith,
            ap length (elements-erased dec key t k i valid here),
            ap length (elements-erase dec key t.slots k i valid.distinct here),
            length-elements-erase dec key t.slots k i here,
          ),
        )
      ]

  step-IsValid :
      (t : OrderedHashtable K V) (op : Operation K V)
      → IsValid dec key t
      → IsValid dec key (step t op)
        × (elements (step t op).slots ≡ entries_step (elements t.slots) op)
  unfolding step entries_step
  step-IsValid t (Operation.emplaces v) valid =
      let (kept, made, said) = emplace_lem t v valid in (kept, made)
  step-IsValid t (Operation.erases k) valid =
      let (kept, made, said) = erase_lem t k valid in (kept, made)
  step-IsValid t Operation.sweeps valid = (
    sweep-IsValid dec key t (λ k e. valid.ids k ∙ e) valid.distinct valid.count,
    (unfold sweep in elements-swept t.slots),
  )
  step-IsValid t Operation.clears valid =
      (clear-IsValid dec key t, (unfold clear in unfold elements in refl))

  -- From a valid table any calls of `emplace`, `erase`, `sweep` and `clear` lead to a valid one (its
  -- vector without empty slots or less than four times as long as its entries are many), which
  -- holds what the same calls leave in a list of entries in the order of insertion.
  pub elements-run :
      (t : OrderedHashtable K V) (ops : List (Operation K V))
      → IsValid dec key t
      → IsValid dec key (run t ops)
        × (elements (run t ops).slots ≡ entries_run (elements t.slots) ops)
  unfolding run entries_run
  elements-run t [] valid = (valid, refl)
  elements-run t (op ∷ ops) valid =
      let (kept, made) = step-IsValid t op valid in
      let (kept', made') = elements-run (step t op) ops kept in
      (kept', made' ∙ ap (λ vs. entries_run vs ops) made)
