-- ===== src/Util/OrderedHashmap/Index.antt =====
-- `operator[]` of an ordered hash map.
use qsyn.Prelude.{
  ℕ, ◌≡◌, ◌≢◌, ◌∙◌, refl, sym, ap, subst, true, false, Option, none, some, get_or, inl, inr,
  Option-cases,
}
use qsyn.Util.OrderedHashtable.{contains, OrderedHashtable, emplaced}
use qsyn.Util.OrderedHashtable.Slots.{position, position-at}
use qsyn.Util.OrderedHashtable.Operations.{IsValid}
use qsyn.Util.OrderedHashmap.{index, key, at}
use qsyn.Util.OrderedHashmap.Values.{at-position, missing_lem}

module _ {K T : Type 0} (dec : Discrete K) where
  contains_here :
      (t : OrderedHashtable K (K × T)) (k : K) (i : ℕ) (e : K × T)
      → IsValid dec key t
      → position dec key t.slots k ≡ some i
      → get_or t.slots i none ≡ some e
      → contains dec key t k ≡ true
  unfolding contains
  contains_here t k i e valid here held = rw (valid.ids k, here, contains, held) refl

  contains_nowhere :
      (t : OrderedHashtable K (K × T)) (k : K)
      → IsValid dec key t
      → position dec key t.slots k ≡ none
      → contains dec key t k ≡ false
  unfolding contains
  contains_nowhere t k valid absent = rw (valid.ids k, absent, contains) refl

  index_there :
      (t : OrderedHashtable K (K × T)) (k : K) (d : T)
      → contains dec key t k ≡ true
      → index dec t k d ≡ (t, at dec t k)
  unfolding index
  index_there t k d e = rw (e, index) refl

  index_new :
      (t : OrderedHashtable K (K × T)) (k : K) (d : T)
      → contains dec key t k ≡ false
      → index dec t k d ≡ (emplaced dec key t (k, d), at dec (emplaced dec key t (k, d)) k)
  unfolding index
  index_new t k d e = rw (e, index) refl

  abbrev pub value_or : T → Option T → T
  value_or d none = d
  value_or d (some v) = v

  -- On a valid map `operator[]` refers to the value of the key, or to the initial value where the key
  -- was missing, changes the value of no other key, and leaves the map valid.
  pub index_lem :
      (t : OrderedHashtable K (K × T)) (k : K) (d : T)
      → IsValid dec key t
      → IsValid dec key (index dec t k d).0
        × ((index dec t k d).1 ≡ some (value_or d (at dec t k)))
        × ((q : K) → q ≢ k → at dec (index dec t k d).0 q ≡ at dec t q)
  index_lem t k d valid =
      let Goal : OrderedHashtable K (K × T) × Option T → Type 0 = λ r.
        IsValid dec key r.0
        × (r.1 ≡ some (value_or d (at dec t k)))
        × ((q : K) → q ≢ k → at dec r.0 q ≡ at dec t q) in
      elim (Option-cases (position dec key t.slots k)) [
        | inl absent ↦
            let (kept, made, others) = missing_lem dec t k d valid absent in
            let was : at dec t k ≡ none = at-position dec t k valid ∙ rw (absent) refl in
            subst Goal (sym (index_new t k d (contains_nowhere t k valid absent)))
              (kept, made ∙ rw (was) refl, others)
        | inr (i, here) ↦
            let (e, held, same) = position-at dec key t.slots k i here in
            let was : at dec t k ≡ some e.1 = at-position dec t k valid ∙ rw (here, held) refl in
            subst Goal (sym (index_there t k d (contains_here t k i e valid here held)))
              (valid, was ∙ ap (λ o. some (value_or d o)) (sym was), λ q other. refl)
      ]
