-- ===== src/Util/Trie/Prefixes.antt =====
-- How often the prefixes of words were used, and the shortest prefix that is not shared.
use qsyn.Prelude.{
  ℕ, ◌+◌, ◌≤◌, ◌≡◌, ◌≢◌, ◌++◌, refl, ◌∙◌, ap, sym, Bool, true, false, ◌&&◌, ◌==◌, ==_iff, ==_false,
  Option, none, some, List, [], ◌∷◌, if◌then◌else◌, inl, inr, ◌⊎◌, eq_cases, arith,
}
use qsyn.Util.Trie.{
  TrieNode, Children, node, frequency_of, lookup, put, or_new, visited, insert, frequency,
  shortest_unique_prefix,
}
use qsyn.Util.Trie.Lookup.{lookup-put}

abbrev pub is_prefix : List ℕ → List ℕ → Bool
is_prefix [] u = true
is_prefix (d ∷ p) [] = false
is_prefix (d ∷ p) (c ∷ u) = (d == c) && is_prefix p u

unfoldable frequency_at : List ℕ → Option TrieNode → ℕ
unfolding frequency
frequency_at p none = 0
frequency_at p (some n) = frequency p n

frequency_child :
    (d : ℕ) (p : List ℕ) (cs : Children) (w : Bool) (f : ℕ)
    → frequency (d ∷ p) (node cs w f) ≡ frequency_at p (lookup d cs)
unfolding frequency frequency_at
frequency_child d p cs w f = read (lookup d cs)
  where
    read : (o : Option TrieNode) → (elim o [ none ↦ 0 | some n ↦ frequency p n ]) ≡ frequency_at p o
    read none = refl
    read (some n) = refl

frequency-or_new :
    (d : ℕ) (p : List ℕ) (o : Option TrieNode)
    → frequency (d ∷ p) (visited (or_new o)) ≡ frequency_at (d ∷ p) o
unfolding frequency frequency_at lookup
frequency-or_new d p none = refl
frequency-or_new d p (some (node cs w f)) = refl

frequency-visited :
    (o : Option TrieNode) → frequency [] (visited (or_new o)) ≡ frequency_at [] o + 1
unfolding frequency frequency_at
frequency-visited none = omega arith
frequency-visited (some (node cs w f)) = refl

frequency-insert_root : (u : List ℕ) (t : TrieNode) → frequency [] (insert u t).1 ≡ frequency [] t
unfolding frequency insert
frequency-insert_root [] (node cs w f) = refl
frequency-insert_root (c ∷ u) (node cs w f) = refl

abbrev one_if : Bool → ℕ
one_if b = if b then 1 else 0

-- An insertion adds one to the frequency of each prefix of the word but the empty one, and to no other.
pub frequency-insert :
    (u : List ℕ) (d : ℕ) (p : List ℕ) (t : TrieNode)
    → frequency (d ∷ p) (insert u t).1
      ≡ frequency (d ∷ p) t + (if is_prefix (d ∷ p) u then 1 else 0)
unfolding frequency insert frequency_at
frequency-insert [] d p (node cs w f) = omega arith
frequency-insert (c ∷ u) d p (node cs w f) =
    let on = visited (or_new (lookup c cs)) in
    frequency_child d p (put c (insert u on).1 cs) w f
    ∙ ap (frequency_at p) (lookup-put c d (insert u on).1 cs)
    ∙ at_key (below p (λ k q. frequency-insert u k q on))
    ∙ ap (λ m. m + one_if ((d == c) && is_prefix p u)) (sym (frequency_child d p cs w f))
  where
    below :
        (p : List ℕ)
        → ((k : ℕ) (q : List ℕ)
            → frequency (k ∷ q) (insert u (visited (or_new (lookup c cs)))).1
              ≡ frequency (k ∷ q) (visited (or_new (lookup c cs))) + one_if (is_prefix (k ∷ q) u))
        → frequency p (insert u (visited (or_new (lookup c cs)))).1
          ≡ frequency_at p (lookup c cs) + one_if (is_prefix p u)
    below [] rest =
        frequency-insert_root u (visited (or_new (lookup c cs))) ∙ frequency-visited (lookup c cs)
    below (k ∷ q) rest =
        rest k q ∙ ap (λ m. m + one_if (is_prefix (k ∷ q) u)) (frequency-or_new k q (lookup c cs))

    at_key :
        frequency p (insert u (visited (or_new (lookup c cs)))).1
          ≡ frequency_at p (lookup c cs) + one_if (is_prefix p u)
        → frequency_at p
            (if d == c then some (insert u (visited (or_new (lookup c cs)))).1 else lookup d cs)
          ≡ frequency_at p (lookup d cs) + one_if ((d == c) && is_prefix p u)
    at_key rest = elim (eq_cases d c) [
      | inl e ↦ rw (e, (==_iff c c).1 refl) rest
      | inr ne ↦ rw (==_false d c ne) (omega arith)
    ]

unfoldable prefix_at : ℕ → List ℕ → Option TrieNode → List ℕ
unfolding shortest_unique_prefix
prefix_at c u none = c ∷ []
prefix_at c u (some n) = if frequency_of n == 1 then c ∷ [] else c ∷ shortest_unique_prefix u n

-- A prefix of the word that is all of it, or that one insertion at most went through.
abbrev IsUnique : List ℕ → TrieNode → List ℕ → Type 0
IsUnique u t p = (is_prefix p u ≡ true) × ((p ≡ u) ⊎ (frequency p t ≤ 1))

-- The node that a prefix leads to.
unfoldable pub node_at : List ℕ → TrieNode → Option TrieNode
node_at [] n = some n
node_at (c ∷ p) (node cs w f) = elim (lookup c cs) [ none ↦ none | some n ↦ node_at p n ]

-- A prefix that leads to a node, through which another number of insertions than one went.
abbrev pub IsShared : TrieNode → List ℕ → Type 0
IsShared t p = (n : TrieNode) × (node_at p t ≡ some n) × (frequency_of n ≢ 1)

-- The nonempty prefixes before the end of a list.
abbrev AllShared : TrieNode → List ℕ → Type 0
AllShared t whole =
    (d : ℕ) (p : List ℕ) (x : ℕ) (q : List ℕ) → whole ≡ d ∷ p ++ x ∷ q → IsShared t (d ∷ p)
