-- ===== src/Util/OrderedHashtable/Comparison.antt =====
-- `operator==` of ordered hash tables, by the entries of the two.
use qsyn.Prelude.{
  ◌≡◌, sym, ◌∙◌, ◌↔◌, Bool, true, List, [], ◌∷◌, arith, ◌==◌, ==_iff, inl, inr, Bool-cases,
}
use qsyn.Util.OrderedHashtable.{OrderedHashtable, elements, contains, any_entry, equal}
use qsyn.Util.OrderedHashtable.Slots.{entry}
use qsyn.Util.OrderedHashtable.Operations.{IsValid}
use qsyn.Util.OrderedHashtable.History.{is_some, contains-entry}

module _ {K V : Type 0} (dec : Discrete K) (key : V → K) where
  any_entry→key :
      (f : K → Bool) (vs : List V)
      → any_entry dec key (λ v. f (key v)) vs ≡ true
      → (k : K) × (is_some (entry dec key vs k) ≡ true) × (f k ≡ true)
  unfolding any_entry entry
  any_entry→key f [] e = ground arith
  any_entry→key f (v ∷ vs) e = elim (Bool-cases (f (key v))) [
    | inl h ↦ (key v, ground (arith), h)
    | inr h ↦
        let (k, found, holds) = any_entry→key f vs (ground (arith, h)) in
        (k, ground (arith, found), holds)
  ]

  key→any_entry :
      (f : K → Bool) (vs : List V) (k : K)
      → is_some (entry dec key vs k) ≡ true
      → f k ≡ true
      → any_entry dec key (λ v. f (key v)) vs ≡ true
  unfolding any_entry entry
  key→any_entry f [] k e h = e
  key→any_entry f (v ∷ vs) k e h = ground (arith, key→any_entry f vs k)

module _ {K : Type 0} (dec : Discrete K) where
  -- `operator==` of two sets, the left one valid, holds exactly when the sizes agree and the sets have an
  -- item in common.
  pub equal_iff :
      (t u : OrderedHashtable K K)
      → IsValid dec (λ k. k) t
      → (equal dec t u ≡ true) ↔ (
          (t.size ≡ u.size)
          × ((k : K) × (contains dec (λ k. k) t k ≡ true) × (contains dec (λ k. k) u k ≡ true)))
  unfolding equal
  equal_iff t u valid = elim (Bool-cases (t.size == u.size)) [
    | inl same ↦ (
      λ e.
          let (k, found, holds) =
            any_entry→key dec (λ k. k) (contains dec (λ k. k) u) (elements t.slots)
              (ground (arith, same)) in
          (
            (==_iff t.size u.size).0 same,
            (k, contains-entry dec (λ k. k) t k valid ∙ found, holds),
          ),
      λ (_, (k, here, there)). rw (same) (
          key→any_entry dec (λ k. k) (contains dec (λ k. k) u) (elements t.slots) k
            (sym (contains-entry dec (λ k. k) t k valid) ∙ here) there),
    )
    | inr differ ↦ (λ e. ground (arith, differ), λ (same, _). ground (arith, differ))
  ]
