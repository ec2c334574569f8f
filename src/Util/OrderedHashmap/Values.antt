-- ===== src/Util/OrderedHashmap/Values.antt =====
-- The values of an ordered hash map after a write.
use qsyn.Prelude.{
  ℕ, ◌+◌, ◌≡◌, ◌≢◌, ◌∙◌, refl, sym, ap, fun_ext, subst, true, false, Option, none, some, List, [],
  ◌∷◌, ◌++◌, length, length-set, get_or, set, arith, inl, inr, Option-cases, get_or-set_ne, if_ind,
}
use qsyn.Util.OrderedHashtable.{OrderedHashtable, hashtable, find, emplaced}
use qsyn.Util.OrderedHashtable.Slots.{position, position-at, position-append}
use qsyn.Util.OrderedHashtable.Operations.{IsValid, find-position, emplaced-IsValid}
use qsyn.Util.OrderedHashmap.{
  key, value_in, at, try_emplace, assign_value, assign_result, insert_or_assign, emplace_id,
}
use qsyn.Util.OrderedHashmap.Writes.{
  position-set, set-AreDistinct, length-elements-set, get_or-set_held, get_or-append_held,
  get_or-append_last, held_key,
}

module _ {K T : Type 0} (dec : Discrete K) where
  abbrev slot_value : List (Option (K × T)) → K → Option T
  slot_value xs q = elim (position dec key xs q) [
    | none ↦ none
    | some i ↦ value_in (get_or xs i none)
  ]

  pub at-position :
      (t : OrderedHashtable K (K × T)) (q : K)
      → IsValid dec key t
      → at dec t q ≡ elim (position dec key t.slots q) [
        | none ↦ none
        | some i ↦ value_in (get_or t.slots i none)
      ]
  unfolding at
  at-position t q valid = rw (find-position dec key t q valid, at) refl

  try_found :
      (t : OrderedHashtable K (K × T)) (k : K) (v : T) (i : ℕ)
      → find dec key t k ≡ some i
      → try_emplace dec t k v ≡ (t, some i, false)
  unfolding try_emplace
  try_found t k v i found = rw (found, try_emplace) refl

  assign_found :
      (t : OrderedHashtable K (K × T)) (v : T) (i : ℕ) (e : K × T)
      → get_or t.slots i none ≡ some e
      → assign_value dec t i v ≡ record t { slots = set t.slots i (some (e.0, v)) }
  assign_found t v i e held = rw (held, assign_value) refl

  insert_found :
      (t : OrderedHashtable K (K × T)) (k : K) (v : T) (i : ℕ) (e : K × T)
      → find dec key t k ≡ some i
      → get_or t.slots i none ≡ some e
      → insert_or_assign dec t k v ≡ record t { slots = set t.slots i (some (e.0, v)) }
  unfolding insert_or_assign
  insert_found t k v i e found held =
      ap (λ ret. assign_result dec ret v) (try_found t k v i found) ∙ assign_found t v i e held

  try_missing :
      (t : OrderedHashtable K (K × T)) (k : K) (v : T)
      → find dec key t k ≡ none
      → t.key_to_id k ≡ none
      → ((try_emplace dec t k v).0 ≡ emplaced dec key t (k, v)) × ((try_emplace dec t k v).2 ≡ true)
  unfolding try_emplace emplaced
  try_missing t k v missing no_id = (
    rw (missing, no_id, try_emplace, emplaced)
        (ap (λ ids. hashtable ids (t.slots ++ (some (k, v) ∷ [])) (t.size + 1))
          (fun_ext (λ q. rw (no_id, emplace_id) refl))),
    rw (missing, try_emplace) refl,
  )

  insert_missing :
      (t : OrderedHashtable K (K × T)) (k : K) (v : T)
      → find dec key t k ≡ none
      → t.key_to_id k ≡ none
      → insert_or_assign dec t k v ≡ emplaced dec key t (k, v)
  unfolding insert_or_assign
  insert_missing t k v missing no_id =
      let (made, said) = try_missing t k v missing no_id in
      if_ind (λ u. u ≡ emplaced dec key t (k, v)) (try_emplace dec t k v).2 (λ e. made)
        (λ e. ground (arith, e, said))

  -- Writing the value of a key that is there.
  found_lem :
      (t : OrderedHashtable K (K × T)) (k : K) (v : T) (i : ℕ) (e : K × T)
      → IsValid dec key t
      → position dec key t.slots k ≡ some i
      → get_or t.slots i none ≡ some e
      → e.0 ≡ k
      → let t₁ : OrderedHashtable K (K × T) = record t { slots = set t.slots i (some (e.0, v)) } in
        IsValid dec key t₁ × (at dec t₁ k ≡ some v) × ((q : K) → q ≢ k → at dec t₁ q ≡ at dec t q)
  found_lem t k v i e valid here held same =
      let new : K × T = (e.0, v) in
      let t₁ : OrderedHashtable K (K × T) = record t { slots = set t.slots i (some new) } in
      let moved : (q : K) → position dec key t₁.slots q ≡ position dec key t.slots q =
        λ q. position-set dec key t.slots k q i new here same in
      let same_length = length-set t.slots i (some new) in
      let valid₁ : IsValid dec key t₁ = record {
        ids = λ q. valid.ids q ∙ sym (moved q);
        distinct = set-AreDistinct dec key t.slots k i new here same valid.distinct;
        count = valid.count ∙ sym (length-elements-set dec key t.slots k i new here);
        dense = rw (same_length) valid.dense;
      } in
      (
        valid₁,
        at-position t₁ k valid₁
            ∙ rw (moved k, here) (ap value_in (get_or-set_held t.slots i (some new) e held)),
        λ q other.
            at-position t₁ q valid₁
            ∙ rw (moved q) (elim (Option-cases (position dec key t.slots q)) [
              | inl absent ↦ rw (absent) refl
              | inr (j, there) ↦
                  let (u, read, its_key) = position-at dec key t.slots q j there in
                  rw (there) (
                    ap value_in (
                      get_or-set_ne t.slots i j (some new) none
                        (λ p. other (sym its_key ∙ held_key t.slots i j u e p read held ∙ same))))
            ])
            ∙ sym (at-position t q valid),
      )

  -- An entry for a new key.
  pub missing_lem :
      (t : OrderedHashtable K (K × T)) (k : K) (v : T)
      → IsValid dec key t
      → position dec key t.slots k ≡ none
      → let t₁ = emplaced dec key t (k, v) in
        IsValid dec key t₁ × (at dec t₁ k ≡ some v) × ((q : K) → q ≢ k → at dec t₁ q ≡ at dec t q)
  unfolding emplaced
  missing_lem t k v valid absent =
      let t₁ = emplaced dec key t (k, v) in
      let valid₁ = emplaced-IsValid dec key t (k, v) valid in
      let xs = t.slots ++ (some (k, v) ∷ []) in
      let grown : t₁.slots ≡ t.slots ++ (some (k, v) ∷ []) =
        rw (valid.ids k, absent, emplaced) refl in
      let at_end : position dec key xs k ≡ some (length t.slots) =
        position-append dec key t.slots (k, v) k absent ∙ ground arith in
      let before : (q : K) → q ≢ k → position dec key xs q ≡ position dec key t.slots q =
        λ q other. position-append dec key t.slots (k, v) q absent ∙ ground (arith, other) in
      (
        valid₁,
        at-position t₁ k valid₁
            ∙ ap (λ ys. slot_value ys k) grown
            ∙ rw (at_end, slot_value) (ap value_in (get_or-append_last t.slots (some (k, v)))),
        λ q other.
            at-position t₁ q valid₁
            ∙ ap (λ ys. slot_value ys q) grown
            ∙ rw (before q other, slot_value)
                (elim (Option-cases (position dec key t.slots q)) [
                  | inl missing ↦ rw (missing) refl
                  | inr (j, there) ↦
                      let (u, read, its_key) = position-at dec key t.slots q j there in
                      rw (there) (
                        ap value_in
                          (get_or-append_held t.slots (some (k, v) ∷ []) j u read ∙ sym read))
                ])
            ∙ sym (at-position t q valid),
      )

  -- On a valid map `insert_or_assign` gives the key its value, changes that of no other key, and
  -- leaves the map valid.
  pub insert_or_assign_lem :
      (t : OrderedHashtable K (K × T)) (k : K) (v : T)
      → IsValid dec key t
      → IsValid dec key (insert_or_assign dec t k v)
        × (at dec (insert_or_assign dec t k v) k ≡ some v)
        × ((q : K) → q ≢ k → at dec (insert_or_assign dec t k v) q ≡ at dec t q)
  insert_or_assign_lem t k v valid =
      let Goal : OrderedHashtable K (K × T) → Type 0 = λ u.
        IsValid dec key u × (at dec u k ≡ some v) × ((q : K) → q ≢ k → at dec u q ≡ at dec t q) in
      let found = find-position dec key t k valid in
      elim (Option-cases (position dec key t.slots k)) [
        | inl absent ↦
            subst Goal (sym (insert_missing t k v (found ∙ absent) (valid.ids k ∙ absent)))
              (missing_lem t k v valid absent)
        | inr (i, here) ↦
            let (e, held, same) = position-at dec key t.slots k i here in
            subst Goal (sym (insert_found t k v i e (found ∙ here) held))
              (found_lem t k v i e valid here held same)
      ]
