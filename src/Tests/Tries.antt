-- ===== src/Tests/Tries.antt =====
-- Tries at concrete words.
use qsyn.Prelude.{◌≡◌, refl, false, ◌||◌, [], ◌∷◌}
use qsyn.Util.Trie.{
  TrieNode, node, child, leaf, new_node, lookup, insert, contains, unmark, prune, remove, put,
  erase,
}
use qsyn.Util.Trie.Words.{same, contains-insert}

abbrev two_words : TrieNode
unfolding insert lookup put
two_words = (insert (1 ∷ 2 ∷ []) (insert (1 ∷ 3 ∷ []) new_node).1).1

contains-insert_example :
    contains (1 ∷ 3 ∷ []) (insert (1 ∷ []) two_words).1
    ≡ (same (1 ∷ []) (1 ∷ 3 ∷ []) || contains (1 ∷ 3 ∷ []) two_words)
contains-insert_example = contains-insert (1 ∷ []) (1 ∷ 3 ∷ []) two_words

-- A word that is inserted twice and erased once leaves a node that no word goes through.
erased_twice :
    (erase (7 ∷ []) (insert (7 ∷ []) (insert (7 ∷ []) new_node).1).1).1
    ≡ node (child 7 (node leaf false 1) leaf) false 0
unfolding erase insert contains unmark prune lookup put
erased_twice = refl

erased_once : (erase (7 ∷ []) (insert (7 ∷ []) new_node).1).1 ≡ new_node
unfolding erase insert contains unmark prune lookup put remove
erased_once = refl
