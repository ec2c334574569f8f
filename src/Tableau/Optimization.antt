-- ===== src/Tableau/Optimization.antt =====
-- src/tableau/tableau_optimization.{hpp,cpp} and src/tableau/optimize/internal_h_opt.cpp: the passes over
-- tableaux and their lists of rotations.
pub mod Identities
pub mod Rotations
pub mod Passes
pub mod Matroids
pub mod Hadamards
pub mod Pipeline
