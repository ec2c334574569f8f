-- ===== src/Tests.antt =====
-- The theorems at concrete inputs, and runs of the model.
pub mod Paulis
pub mod Tableaux
mod Hashtables
mod Matrices
mod Texts
mod Phases
mod Passes
mod Tries
mod Devices
