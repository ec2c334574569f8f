-- ===== src/Util/Trie.antt =====
-- class Trie (src/util/trie.{hpp,cpp}): words by their characters, with the number of insertions that
-- went through each node. A map of children is a list of pairs, with a new key at the end.
pub mod Lookup
pub mod Words
pub mod Prefixes
use qsyn.Prelude.{
  ℕ, zero, suc, ◌+◌, ◌-◌, Bool, true, false, not, ◌==◌, ltb, Option, none, some, List, [], ◌∷◌,
  if◌then◌else◌, ◌>>=◌,
}

mutual
  pub data TrieNode : Type 0 where
    node : Children → Bool → ℕ → TrieNode

  pub data Children : Type 0 where
    leaf : Children
    child : ℕ → TrieNode → Children → Children

-- `Trie()`, whose root is a new node.
abbrev pub new_node : TrieNode
new_node = node leaf false 0

abbrev pub is_word : TrieNode → Bool
is_word (node cs w f) = w

abbrev pub frequency_of : TrieNode → ℕ
frequency_of (node cs w f) = f

unfoldable pub lookup : ℕ → Children → Option TrieNode
lookup c leaf = none
lookup c (child k n rest) = let below = lookup c rest in if k == c then some n else below

-- The write to the node that `at` returns, which `emplace` makes if it is missing.
unfoldable pub put : ℕ → TrieNode → Children → Children
put c n leaf = child c n leaf
put c n (child k m rest) =
    let below = put c n rest in if k == c then child k n rest else child k m below

unfoldable pub remove : ℕ → Children → Children
remove c leaf = leaf
remove c (child k m rest) = let below = remove c rest in if k == c then rest else child k m below

abbrev pub or_new : Option TrieNode → TrieNode
or_new none = new_node
or_new (some n) = n

abbrev pub visited : TrieNode → TrieNode
visited (node cs w f) = node cs w (f + 1)

-- `insert`: whether the word is new, and the node afterwards.
unfoldable pub insert : List ℕ → TrieNode → Bool × TrieNode
unfolding lookup put
insert [] (node cs w f) = (not w, node cs true f)
insert (c ∷ word) (node cs w f) =
    let out = insert word (visited (or_new (lookup c cs))) in (out.0, node (put c out.1 cs) w f)

unfoldable pub contains : List ℕ → TrieNode → Bool
unfolding lookup
contains [] (node cs w f) = w
contains (c ∷ word) (node cs w f) = elim (lookup c cs) [ none ↦ false | some n ↦ contains word n ]

unfoldable pub frequency : List ℕ → TrieNode → ℕ
unfolding lookup
frequency [] (node cs w f) = f
frequency (c ∷ prefix) (node cs w f) = elim (lookup c cs) [ none ↦ 0 | some n ↦ frequency prefix n ]

-- The first pass of `erase`, over the nodes of a word that the trie contains. The count is a `size_t`.
abbrev pub left : TrieNode → TrieNode
left (node cs w f) = node cs w (if f == 0 then 18_446_744_073_709_551_615 else f - 1)

unfoldable pub unmark : List ℕ → TrieNode → TrieNode
unfolding lookup put
unmark [] (node cs w f) = node cs false f
unmark (c ∷ word) (node cs w f) = node (put c (unmark word (left (or_new (lookup c cs)))) cs) w f

-- The second pass, which takes out the first node that no insertion is left for.
unfoldable pub prune : List ℕ → TrieNode → TrieNode
unfolding lookup put remove
prune [] n = n
prune (c ∷ word) (node cs w f) =
    let n = or_new (lookup c cs) in
    let below = prune word n in
    if frequency_of n == 0 then node (remove c cs) w f else node (put c below cs) w f

unfoldable pub erase : List ℕ → TrieNode → Bool × TrieNode
unfolding contains unmark prune
erase word t = if contains word t then (true, prune word (unmark word t)) else (false, t)

-- `shortest_unique_prefix`: the characters up to the first node that one insertion went through.
unfoldable pub shortest_unique_prefix : List ℕ → TrieNode → List ℕ
unfolding lookup
shortest_unique_prefix [] n = []
shortest_unique_prefix (c ∷ word) (node cs w f) = elim (lookup c cs) [
  | none ↦ c ∷ []
  | some n ↦
      (let rest = shortest_unique_prefix word n in if frequency_of n == 1 then c ∷ [] else c ∷ rest)
]
