-- ===== src/Util/Trie/Lookup.antt =====
-- Reads of a map of children after a write.
use qsyn.Prelude.{ℕ, ◌≡◌, ◌==◌, some, if◌then◌else◌, arith}
use qsyn.Util.Trie.{TrieNode, Children, leaf, child, lookup, put}

pub lookup-put :
    (c d : ℕ) (n : TrieNode) (cs : Children)
    → lookup d (put c n cs) ≡ (if d == c then some n else lookup d cs)
unfolding lookup put
lookup-put c d n leaf = ground arith
lookup-put c d n (child k m rest) = ground (arith, lookup-put c d n rest)
