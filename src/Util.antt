-- ===== src/Util.antt =====
-- The containers of src/util that the rest of the program stands on.
pub mod OrderedHashtable
pub mod OrderedHashmap
pub mod BooleanMatrix
pub mod Rational
pub mod Phase
pub mod Trie
