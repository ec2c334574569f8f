-- ===== src/Lib.antt =====
-- The Clifford core of qsyn, a C++ system for quantum circuit synthesis, and its mapping of gates to
-- devices.
--
-- Parts of the program and how they interact. A Clifford circuit is a string of operators
-- (`CliffordOperatorString`, src/tableau/pauli_rotation.hpp). A Pauli product is a signed
-- string of Pauli letters; a stabilizer tableau is a vector of Pauli products, a stabilizer
-- and a destabilizer for each qubit. Both classes implement h, s and cx, and the base class
-- `PauliProductTrait` derives the other operators and the application of a string from these
-- three. The synthesis strategies (src/tableau/stabilizer_tableau.cpp) turn a tableau back into
-- a string of operators, by elimination on a copy and a log of the operators used.
-- The containers of src/util, which hold the program's graphs, circuits and matrices, stand by
-- themselves.
-- A tableau (src/tableau/tableau.hpp) is a list of Cliffords, as stabilizer tableaux, and of lists
-- of Pauli rotations, products with a phase. The optimizations (src/tableau/tableau_optimization.cpp)
-- push the Cliffords to the front, merge rotations, absorb those by Clifford angles into the
-- Clifford in front of them, and split phase polynomials into independent parts.
-- A device (src/device/device.{hpp,cpp}) is a list of physical qubits with their couplings, and the
-- distances and predecessors that `floyd_warshall` computes in place. The router
-- (src/duostra/router.{hpp,cpp}) moves logical qubits over a device by swaps, along these paths,
-- until the two qubits of a gate are coupled, and keeps a table of where each logical qubit is.
--
-- Which file models what.
-- - Prelude: Boolean tests on numbers, lists with positions, parity, loops (`for_range` for
--   `for (i = a; i < b; ++i)`, by recursion on the number of rounds, so no fuel is needed).
--   Grids has vectors of vectors and loops over their cells, Filled what such a loop leaves.
-- - Pauli.Product: class PauliProduct (src/tableau/pauli_rotation.{hpp,cpp}). The bitset
--   of 2n+1 bits is a list of n sites, each with the bits `z` and `x`, and the sign; the methods
--   h, s, cx, is_commutative and operator*= keep their names (operator* is ⊙).
-- - Pauli.Operator: CliffordOperatorType with its names and adjoints (the same files).
-- - Pauli.Text: the constructors of PauliProduct from lists and strings and its text, over bytes.
-- - Pauli.Trait: PauliProductTrait as a record of the three gates, with the derived gates and
--   `apply` for anything that has an instance; the switch of `apply` is `dispatch`.
-- - Tableau.Stabilizer: class StabilizerTableau (src/tableau/stabilizer_tableau.{hpp,cpp}),
--   a list of 2n rows, with `stabilizer` and `destabilizer` at the source's positions, and the
--   prepended gates.
-- - Tableau.Synthesis: AGSynthesisStrategy in AaronsonGottesman, HOptSynthesisStrategy in HOpt.
--   The object that the lambdas of `synthesize` share, the copy and the log, is the record
--   `Building`, which every step takes and returns. The signal test `stop_requested()` is a
--   parameter of the model, a Boolean for each round of the outer loop.
-- - Pauli.Matrix: the matrices that the Pauli products stand for, as their action on a basis
--   state (`act`) with the exponent of i of its phase (`exponent`), independent of the code.
-- - The other modules hold lemmas: Pauli.Local and Pauli.Adjoint reduce a gate to the two
--   sites that it reads, Pauli.Generated carries a relation that h, s and cx keep to every
--   string of operators, Tableau.Stabilizer.Rows reads a tableau row by row, and
--   Tableau.Synthesis.Record shows that a step of the synthesis keeps the log in step with the
--   copy.
-- - Util.OrderedHashtable: src/util/ordered_hashtable.hpp, with a function for the hash map and
--   positions for iterators; Slots and Operations hold the lemmas, History the list of entries
--   in the order of insertion that a table stands for, Comparison `operator==`.
-- - Util.OrderedHashmap: src/util/ordered_hashmap.hpp, the values of the pairs that a table holds.
-- - Util.BooleanMatrix: src/util/boolean_matrix.{hpp,cpp}; Elimination has the two eliminations,
--   whose loops over columns, sections and pivots are recursions on how many are left, Record what
--   every row operation keeps, Replay the recorded operations, Solutions the linear equations that
--   the rows stand for.
-- - Util.Rational, Util.Phase: src/util/rational.{hpp,cpp} and src/util/phase.hpp, on the integers
--   of Prelude.Int; Range is about the casts to int, Reduce and Value say which fraction an
--   operation gives, Normal and Sum what a phase is after `normalize` and as a sum.
-- - Pauli.Rotation: class PauliRotation and extract_clifford_operators; Extraction says what the
--   operators do, Validity that they are on qubits of the register, Pauli.Identity what the gates
--   keep of a product, Pauli.Equality has the comparisons.
-- - Tableau.SubTableaux: src/tableau/tableau.{hpp,cpp}, a list of Cliffords and lists of rotations.
-- - Tableau.Optimization: src/tableau/tableau_optimization.{hpp,cpp}, with the passes over lists of
--   rotations in Rotations, those over tableaux in Identities, Passes and Matroids, full_optimize in
--   Pipeline, and src/tableau/optimize/internal_h_opt.cpp in Hadamards. A `ConjugationView` holds
--   the Clifford and the rotations before its index; a loop from the back is a recursion on the
--   reversed list; the synthesis and the optimization of phase polynomials are parameters.
-- - Tableau.Equivalence: when two circuits of Cliffords, gates and rotations are equal, by the
--   rules of Pauli rotations, independent of the passes. It takes the gates' action on products
--   and the sums of phases from the model; Pauli.Matrix and Util.Phase.Sum say what these are.
-- - Device.Qubit, Device.Topology, Device.State: the classes PhysicalQubit, Topology and Device. A
--   vector of vectors is a list of lists; a write to a qubit by reference is a write to the list. In
--   Topology, Phase is about one phase of the loops, Routes has the invariant between phases,
--   Direct, Detour and Extension keep it, Weights, Initial, Start and First set it up, and Shortest
--   draws the conclusions; Device.Path is about `get_path`, Coupling about `add_adjacency`, Writes
--   has the reads of a qubit after a write.
-- - Duostra.Router: class Router along shortest paths, `_initialize` and `assign_gate` in Assign.
--   Schedule has the step relation of timed gates on a device, Occupy and Permuted what gates do to
--   a device, Stages and Routing are about `apsp_routing`, and Tracks, Tracking, Assignment and
--   Initialize about the table.
-- - Duostra.Placer, Duostra.Placement: StaticPlacer (src/duostra/placer.cpp), and what `place` does.
-- - Util.Trie: src/util/trie.{hpp,cpp}, a node with the list of its children.
--
-- Bounds. Numbers are natural numbers; qubit indices are below 2^64 in the source and never
-- wrap, since they stay below the number of qubits. Reading out of range (undefined behaviour of
-- the vector) gives a default value in the model, and the theorems ask that the qubits of
-- the operators exist and, where the two qubits of an operator may not coincide, that they
-- differ, as the source's assertions do. The numerators and denominators of phases, which the
-- source keeps in doubles, are integers; `reduce` and `floor` cast them to int, and the theorems on
-- the values of phases ask that what is cast be in its range. Where an assertion fails, or the first
-- element of nothing is read, in `Device.place`, `apsp_routing`, `is_phase_polynomial` and the
-- parser of Pauli products, the model gives no result. The do-while loops of
-- merge_rotations and full_optimize run on fuel, one more than there are rotations, and every
-- round but the last removes one; the loop of properize over one phase has fuel for the four
-- quarters of a turn.
--
-- The distances between the qubits of a device are at most 100,000, and sums of two of them are
-- far from the bound of size_t. The loop of `get_path` and that of `apsp_routing` run on fuel; as
-- much as the distance between the two qubits is enough. Times and delays have no bound in the
-- model. A word is handled character by character, by recursion on it.
--
-- Copies of a device share their topology in the source; only `calculate_path` writes to it, so each
-- device of the model has its own.
--
-- Not modelled: the TODD strategy (src/tableau/optimize/todd.cpp), circuits, the search of
-- `duostra_routing`, the schedulers and all placers but the static one, ZX graphs and extraction;
-- tensors, which are floating-point arrays of a third-party library; the command line and the other
-- printing and parsing.
pub mod Prelude
pub mod Pauli
pub mod Tableau
pub mod Util
pub mod Device
pub mod Duostra
pub mod Tests
