-- ===== src/Tableau.antt =====
-- src/tableau: stabilizer tableaux, their synthesis, and tableaux of Cliffords and rotations.
pub mod Stabilizer
pub mod Synthesis
pub mod Equivalence
pub mod SubTableaux
pub mod Optimization
