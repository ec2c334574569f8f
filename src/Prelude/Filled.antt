-- ===== src/Prelude/Filled.antt =====
-- A square that loops over all cells fill in place: the cells that they have passed and that a test
-- selects hold new values, and the others their old ones.
use Prim.Native.Nat.{ℕ, ◌+◌, ◌<◌}
use mathlib.Core.Path.{◌≡◌, refl}
use mathlib.Core.Logic.{inl, inr}
use mathlib.Core.Bool.{Bool, true, false, ◌&&◌, ◌||◌}
use native.Mathlib.Omega.{arith}
use qsyn.Prelude.Tests.{◌==◌, ltb, if◌then◌else◌, eq_cases, ==_iff, ==_false}
use qsyn.Prelude.Grids.{Grid, entry, write, IsSquare, entry-write, write-IsSquare}

-- Whether the loops have passed the cell `a`, `b` when they come to `i`, `j`.
unfoldable pub passed : ℕ → ℕ → ℕ → ℕ → Bool
passed i j a b = ltb a i || ((a == i) && ltb b j)

module _ (n : ℕ) (test : ℕ → ℕ → Bool) (new old : ℕ → ℕ → ℕ) where
  abbrev filled : ℕ → ℕ → ℕ → ℕ → ℕ
  filled i j a b = if passed i j a b && test a b then new a b else old a b

  pub record Filled (i j : ℕ) (g : Grid) : Type 0 where
    pub square : IsSquare n g
    pub values : (a b : ℕ) → a < n → b < n → entry g a b ≡ filled i j a b

  passed_step : (i j a b : ℕ) → passed i (j + 1) a b ≡ (((a == i) && (b == j)) || passed i j a b)
  unfolding passed
  passed_step i j a b = ground arith

  pub write-Filled :
      {i j : ℕ} {g : Grid}
      → i < n
      → j < n
      → test i j ≡ true
      → Filled i j g
      → Filled i (j + 1) (write g i j (new i j))
  write-Filled {i} {j} {g} hi hj e h = record {
    square = write-IsSquare h.square i j (new i j) hi;
    values = λ a b ha hb.
        rw (entry-write h.square i j a b (new i j) hi hj, passed_step i j a b) (values a b ha hb);
  }
    where
      values :
          (a b : ℕ)
          → a < n
          → b < n
          → (if (a == i) && (b == j) then new i j else entry g a b)
            ≡ (if ((a == i) && (b == j) || passed i j a b) && test a b then new a b else old a b)
      values a b ha hb = elim (eq_cases a i) [
        | inl p ↦ elim (eq_cases b j) [
          | inl q ↦ rw (p, q, (==_iff i i).1 refl, (==_iff j j).1 refl, e) refl
          | inr q ↦ rw (==_false b j q) (ground (arith, h.values a b ha hb))
        ]
        | inr p ↦ rw (==_false a i p) (ground (arith, h.values a b ha hb))
      ]

  pub skip-Filled :
      {i j : ℕ} {g : Grid} → i < n → j < n → test i j ≡ false → Filled i j g → Filled i (j + 1) g
  skip-Filled {i} {j} {g} hi hj e h = record {
    square = h.square;
    values = λ a b ha hb. rw (passed_step i j a b) (values a b ha hb);
  }
    where
      values :
          (a b : ℕ)
          → a < n
          → b < n
          → entry g a b
            ≡ (if ((a == i) && (b == j) || passed i j a b) && test a b then new a b else old a b)
      values a b ha hb = elim (eq_cases a i) [
        | inl p ↦ elim (eq_cases b j) [
          | inl q ↦ rw (h.values a b ha hb, p, q, e) (ground arith)
          | inr q ↦ rw (==_false b j q) (ground (arith, h.values a b ha hb))
        ]
        | inr p ↦ rw (==_false a i p) (ground (arith, h.values a b ha hb))
      ]

  pub next-Filled : {i : ℕ} {g : Grid} → Filled i n g → Filled (i + 1) 0 g
  unfolding passed
  next-Filled {i} {g} h = record {
    square = h.square;
    values = λ a b ha hb. ground (arith, h.values a b ha hb);
  }

  pub start-Filled :
      {g : Grid} → IsSquare n g → ((a b : ℕ) → a < n → b < n → entry g a b ≡ old a b) → Filled 0 0 g
  unfolding passed
  start-Filled {g} sq h = record { square = sq; values = λ a b ha hb. ground (arith, h a b ha hb) }

  -- At the cell that the loops are at, the old value stands.
  pub Filled-here : {i j : ℕ} {g : Grid} → i < n → j < n → Filled i j g → entry g i j ≡ old i j
  unfolding passed
  Filled-here {i} {j} hi hj h = ground (arith, h.values i j hi hj)

  -- A cell that the test does not select, or whose new value is its old one.
  pub Filled-kept :
      {i j : ℕ} {g : Grid}
      → Filled i j g
      → (a b : ℕ) → a < n
      → b < n
      → test a b ≡ false
      → entry g a b ≡ old a b
  Filled-kept h a b ha hb e = ground (arith, h.values a b ha hb)

  pub Filled-all :
      {g : Grid}
      → Filled n 0 g
      → (a b : ℕ) → a < n
      → b < n
      → entry g a b ≡ (if test a b then new a b else old a b)
  unfolding passed
  Filled-all h a b ha hb = ground (arith, h.values a b ha hb)
