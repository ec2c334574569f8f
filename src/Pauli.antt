-- ===== src/Pauli.antt =====
-- src/tableau/pauli_rotation.{hpp,cpp}: the Pauli products, the Clifford operators and the trait.
pub mod Product
pub mod Text
pub mod Names
pub mod Operator
pub mod Trait
pub mod Gates
pub mod Local
pub mod Adjoint
pub mod Strings
pub mod Power
pub mod Conjugation
pub mod Generated
pub mod Identity
pub mod Rotation
pub mod Equality
pub mod Matrix
pub mod Commute
