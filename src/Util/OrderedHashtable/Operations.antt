-- ===== src/Util/OrderedHashtable/Operations.antt =====
-- The operations of an ordered hash table on the dictionary that it stands for.
use qsyn.Prelude.{
  ℕ, ◌+◌, ◌-◌, ◌*◌, ◌<◌, ◌≡◌, refl, sym, ap, ◌∙◌, none, some, List, [], ◌∷◌, ◌++◌, length,
  length-append, set, arith, leb, ◌⊎◌, inl, inr, Option-cases, Bool-cases,
}
use qsyn.Util.OrderedHashtable.{
  OrderedHashtable, hashtable, elements, swept, assign, contains, find, clear, emplaced, sweep,
  erased,
}
use qsyn.Util.OrderedHashtable.Slots.{
  position, AreDistinct, entry, without, position-append, position-at, position-erase,
  append-AreDistinct, erase-AreDistinct, position-swept-none, swept-AreDistinct, reindex_lem,
  elements-append, elements-swept, length-swept, elements-erase, length-elements-erase,
  entry-elements,
}

module _ {K V : Type 0} (dec : Discrete K) (key : V → K) where
  pub record IsValid (t : OrderedHashtable K V) : Type 0 where
    pub ids : (k : K) → t.key_to_id k ≡ position dec key t.slots k
    pub distinct : AreDistinct dec key t.slots
    pub count : t.size ≡ length (elements t.slots)
    pub dense : (length t.slots ≡ t.size) ⊎ (length t.slots < t.size * 4)

  -- On a valid table the guard of `contains` on the slot always holds.
  pub find-position :
      (t : OrderedHashtable K V) (k : K) → IsValid t → find dec key t k ≡ position dec key t.slots k
  unfolding find contains
  find-position t k valid = elim (Option-cases (position dec key t.slots k)) [
    | inl absent ↦ ground (arith, valid.ids k, absent)
    | inr (i, here) ↦
        let (v, held, same) = position-at dec key t.slots k i here in
        ground (arith, valid.ids k, here, held)
  ]

  pub clear-IsValid : (t : OrderedHashtable K V) → IsValid (clear dec key t)
  unfolding clear position AreDistinct elements
  clear-IsValid t = record { ids = λ k. refl; distinct = tt; count = refl; dense = inl refl }

  -- The dictionary after `emplace(v)`.
  unfoldable pub inserted : V → List V → List V
  inserted v vs = elim (entry dec key vs (key v)) [ none ↦ vs ++ (v ∷ []) | some w ↦ vs ]

  emplaced_new :
      (t : OrderedHashtable K V) (v : V)
      → t.key_to_id (key v) ≡ none
      → emplaced dec key t v
        ≡ hashtable
            (assign dec key (key v) (some (length t.slots)) t.key_to_id)
            (t.slots ++ (some v ∷ []))
            (t.size + 1)
  unfolding emplaced
  emplaced_new t v e = rw (e, emplaced) refl

  emplaced_old :
      (t : OrderedHashtable K V) (v : V) (i : ℕ)
      → t.key_to_id (key v) ≡ some i
      → emplaced dec key t v ≡ t
  unfolding emplaced
  emplaced_old t v i e = rw (e, emplaced) refl

  pub emplaced-IsValid :
      (t : OrderedHashtable K V) (v : V) → IsValid t → IsValid (emplaced dec key t v)
  emplaced-IsValid t v valid = elim (Option-cases (position dec key t.slots (key v))) [
    | inl absent ↦ rw (emplaced_new t v (valid.ids (key v) ∙ absent)) (record {
      ids = λ k. ground (arith, valid.ids k, position-append dec key t.slots v k absent);
      distinct = append-AreDistinct dec key t.slots v valid.distinct absent;
      count = omega (
        arith,
        valid.count,
        ap length (elements-append t.slots v),
        length-append (elements t.slots) (v ∷ []),
      );
      dense = ground (arith, valid.dense, length-append t.slots (some v ∷ []));
    })
    | inr (i, here) ↦ rw (emplaced_old t v i (valid.ids (key v) ∙ here)) valid
  ]

  inserted_new :
      (v : V) (vs : List V) → entry dec key vs (key v) ≡ none → inserted v vs ≡ vs ++ (v ∷ [])
  unfolding inserted
  inserted_new v vs e = rw (e, inserted) refl

  inserted_old : (v w : V) (vs : List V) → entry dec key vs (key v) ≡ some w → inserted v vs ≡ vs
  unfolding inserted
  inserted_old v w vs e = rw (e, inserted) refl

  pub elements-emplaced :
      (t : OrderedHashtable K V) (v : V)
      → IsValid t
      → elements (emplaced dec key t v).slots ≡ inserted v (elements t.slots)
  elements-emplaced t v valid =
      let k = key v in
      let looked = entry-elements dec key t.slots k in
      elim (Option-cases (position dec key t.slots k)) [
        | inl absent ↦
            ap (λ u. elements u.slots) (emplaced_new t v (valid.ids k ∙ absent))
            ∙ elements-append t.slots v
            ∙ sym (inserted_new v (elements t.slots) (looked ∙ rw (absent) refl))
        | inr (i, here) ↦
            let (w, held, same) = position-at dec key t.slots k i here in
            ap (λ u. elements u.slots) (emplaced_old t v i (valid.ids k ∙ here))
            ∙ sym (inserted_old v w (elements t.slots) (looked ∙ rw (here) held))
      ]

  pub sweep-IsValid :
      (t : OrderedHashtable K V)
      → ((k : K) → position dec key t.slots k ≡ none → t.key_to_id k ≡ none)
      → AreDistinct dec key t.slots
      → t.size ≡ length (elements t.slots)
      → IsValid (sweep dec key t)
  unfolding sweep
  sweep-IsValid t absent distinct count = record {
    ids = λ k. ground (
      arith,
      reindex_lem dec key 0 (swept t.slots) t.key_to_id k
          (swept-AreDistinct dec key t.slots distinct),
      position-swept-none dec key t.slots k,
      absent k,
      Option-cases (position dec key (swept t.slots) k),
    );
    distinct = swept-AreDistinct dec key t.slots distinct;
    count = count ∙ sym (ap length (elements-swept t.slots));
    dense = inl (length-swept t.slots ∙ sym count);
  }

  -- A valid table after an erasure that found the key at `i`, before the test whether to sweep.
  erased_ids :
      (t : OrderedHashtable K V) (k q : K) (i : ℕ)
      → IsValid t
      → position dec key t.slots k ≡ some i
      → position dec key (set t.slots i none) q ≡ assign dec key k none t.key_to_id q
  erased_ids t k q i valid here =
      position-erase dec key t.slots k q i valid.distinct here ∙ ground (arith, valid.ids q)

  pub erased-IsValid :
      (t : OrderedHashtable K V) (k : K) (i : ℕ)
      → IsValid t
      → position dec key t.slots k ≡ some i
      → IsValid (erased dec key t k i)
  unfolding erased
  erased-IsValid t k i valid here =
      let xs = set t.slots i none in
      let count : t.size - 1 ≡ length (elements xs) =
        omega (arith, valid.count, length-elements-erase dec key t.slots k i here) in
      let distinct = erase-AreDistinct dec key t.slots k i valid.distinct here in
      elim (Bool-cases (leb ((t.size - 1) * 4) (length xs))) [
        | inl full ↦ rw (full) (
            sweep-IsValid (hashtable (assign dec key k none t.key_to_id) xs (t.size - 1))
              (λ q gone. sym (erased_ids t k q i valid here) ∙ gone) distinct count)
        | inr roomy ↦ rw (roomy) (record {
          ids = λ q. sym (erased_ids t k q i valid here);
          distinct = distinct;
          count = count;
          dense = inr (ground (arith, roomy));
        })
      ]

  pub elements-erased :
      (t : OrderedHashtable K V) (k : K) (i : ℕ)
      → IsValid t
      → position dec key t.slots k ≡ some i
      → elements (erased dec key t k i).slots ≡ without dec key k (elements t.slots)
  unfolding erased sweep
  elements-erased t k i valid here =
      let xs = set t.slots i none in
      let goes = elements-erase dec key t.slots k i valid.distinct here in
      elim (Bool-cases (leb ((t.size - 1) * 4) (length xs))) [
        | inl full ↦ rw (full) (elements-swept xs ∙ goes)
        | inr roomy ↦ rw (roomy) goes
      ]
