-- ===== src/Util/Trie/Words.antt =====
-- Which words a trie has after an insertion.
use qsyn.Prelude.{
  ℕ, ◌≡◌, refl, ◌∙◌, ap, sym, Bool, true, false, not, ◌&&◌, ◌||◌, ◌==◌, ==_iff, ==_false, Option,
  none, some, List, [], ◌∷◌, if◌then◌else◌, inl, inr, eq_cases,
}
use qsyn.Util.Trie.{TrieNode, Children, node, lookup, put, or_new, visited, insert, contains}
use qsyn.Util.Trie.Lookup.{lookup-put}

abbrev pub same : List ℕ → List ℕ → Bool
same [] [] = true
same [] (d ∷ v) = false
same (c ∷ u) [] = false
same (c ∷ u) (d ∷ v) = (d == c) && same u v

-- The words below a child that may be missing.
unfoldable contains_at : List ℕ → Option TrieNode → Bool
unfolding contains
contains_at v none = false
contains_at v (some n) = contains v n

contains_child :
    (d : ℕ) (v : List ℕ) (cs : Children) (w : Bool) (f : ℕ)
    → contains (d ∷ v) (node cs w f) ≡ contains_at v (lookup d cs)
unfolding contains contains_at
contains_child d v cs w f = read (lookup d cs)
  where
    read :
        (o : Option TrieNode) → (elim o [ none ↦ false | some n ↦ contains v n ]) ≡ contains_at v o
    read none = refl
    read (some n) = refl

-- The node that a walk continues at, or a new one, has the same words below it.
contains-or_new :
    (v : List ℕ) (o : Option TrieNode) → contains v (visited (or_new o)) ≡ contains_at v o
unfolding contains contains_at lookup
contains-or_new [] none = refl
contains-or_new (d ∷ v) none = refl
contains-or_new [] (some (node cs w f)) = refl
contains-or_new (d ∷ v) (some (node cs w f)) = refl

-- What the insertion of a word leaves at the children of a node.
insert_child :
    (c : ℕ) (u : List ℕ) (cs : Children) (w : Bool) (f : ℕ)
    → (insert (c ∷ u) (node cs w f)).1
      ≡ node (put c (insert u (visited (or_new (lookup c cs)))).1 cs) w f
unfolding insert
insert_child c u cs w f = refl

-- After an insertion a trie has the word inserted and the words that it had before.
pub contains-insert :
    (u v : List ℕ) (t : TrieNode) → contains v (insert u t).1 ≡ (same u v || contains v t)
unfolding contains insert contains_at
contains-insert [] [] (node cs w f) = refl
contains-insert [] (d ∷ v) (node cs w f) = refl
contains-insert (c ∷ u) [] (node cs w f) = refl
contains-insert (c ∷ u) (d ∷ v) (node cs w f) =
    let on = visited (or_new (lookup c cs)) in
    contains_child d v (put c (insert u on).1 cs) w f
    ∙ ap (contains_at v) (lookup-put c d (insert u on).1 cs)
    ∙ at_key (contains-insert u v on)
    ∙ ap (◌||◌ ((d == c) && same u v)) (sym (contains_child d v cs w f))
  where
    at_key :
        contains v (insert u (visited (or_new (lookup c cs)))).1
          ≡ (same u v || contains v (visited (or_new (lookup c cs))))
        → contains_at v
            (if d == c then some (insert u (visited (or_new (lookup c cs)))).1 else lookup d cs)
          ≡ (((d == c) && same u v) || contains_at v (lookup d cs))
    at_key rest = elim (eq_cases d c) [
      | inl e ↦
          rw (e, (==_iff c c).1 refl)
            (rest ∙ ap (◌||◌ (same u v)) (contains-or_new v (lookup c cs)))
      | inr ne ↦ rw (==_false d c ne) refl
    ]

-- The flag that an insertion returns says whether the trie lacked the word.
pub insert_lem : (u : List ℕ) (t : TrieNode) → (insert u t).0 ≡ not (contains u t)
unfolding contains insert
insert_lem [] (node cs w f) = refl
insert_lem (c ∷ u) (node cs w f) =
    insert_lem u (visited (or_new (lookup c cs)))
    ∙ ap not (contains-or_new u (lookup c cs) ∙ sym (contains_child c u cs w f))
