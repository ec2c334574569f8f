-- ===== src/Device/Writes.antt =====
-- The qubits of a device after a write to one of them.
use qsyn.Prelude.{
  ℕ, ◌<◌, ◌≡◌, ◌≢◌, refl, ◌∙◌, ◌==◌, ==_iff, ==_false, length, get_or-set_if, if◌then◌else◌, inl,
  inr, eq_cases,
}
use qsyn.Device.Qubit.{PhysicalQubit, physical_qubit, max_qubit_id}
use qsyn.Device.State.{Device, on_qubit}
use qsyn.Device.Topology.{qubit_at}

abbrev pub qubit_of : Device → ℕ → PhysicalQubit
qubit_of d k = qubit_at d.qubit_list k

pub on_qubit_lem :
    (d : Device) (i k : ℕ) (f : PhysicalQubit → PhysicalQubit)
    → i < length d.qubit_list
    → qubit_of (on_qubit i f d) k ≡ (if k == i then f (qubit_of d i) else qubit_of d k)
on_qubit_lem d i k f hi =
    get_or-set_if d.qubit_list i k (f (qubit_at d.qubit_list i)) (physical_qubit max_qubit_id) hi

-- A field that the write leaves alone, and any field of another qubit.
module _ {ℓ} {A : Type ℓ} (field : PhysicalQubit → A) (d : Device) (i : ℕ)
    (f : PhysicalQubit → PhysicalQubit) (hi : i < length d.qubit_list) where
  pub at_written : field (qubit_of (on_qubit i f d) i) ≡ field (f (qubit_of d i))
  at_written = rw (on_qubit_lem d i i f hi, (==_iff i i).1 refl) refl

  pub at_other : (k : ℕ) → k ≢ i → field (qubit_of (on_qubit i f d) k) ≡ field (qubit_of d k)
  at_other k ne = rw (on_qubit_lem d i k f hi, ==_false k i ne) refl

  pub at_any :
      ((q : PhysicalQubit) → field (f q) ≡ field q)
      → (k : ℕ) → field (qubit_of (on_qubit i f d) k) ≡ field (qubit_of d k)
  at_any keeps k = elim (eq_cases k i) [
    | inl e ↦ rw e (at_written ∙ keeps (qubit_of d i))
    | inr ne ↦ at_other k ne
  ]
