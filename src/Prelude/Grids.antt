-- ===== src/Prelude/Grids.antt =====
-- Vectors of vectors of numbers, read and written at a row and a column, and loops over all cells.
use Prim.Native.Nat.{ℕ, zero, suc, ◌+◌, ◌<◌}
use mathlib.Core.Path.{◌≡◌, refl, ap}
use mathlib.Core.Bool.{◌&&◌}
use mathlib.Core.List.{List, [], ◌∷◌}
use native.Mathlib.Omega.{arith}
use qsyn.Prelude.Tests.{◌==◌, if◌then◌else◌}
use qsyn.Prelude.Lists.{length, get_or, set, length-set, get_or-set_if}
use qsyn.Prelude.Loops.{for_range, for_range_ind}

abbrev pub Grid : Type 0
Grid = List (List ℕ)

unfoldable pub entry : Grid → ℕ → ℕ → ℕ
entry g i j = get_or (get_or g i []) j 0

unfoldable pub write : Grid → ℕ → ℕ → ℕ → Grid
write g i j v = set g i (set (get_or g i []) j v)

-- `resize`: what is past the new size goes, and what is missing is the given value.
unfoldable pub resize {ℓ} : {A : Type ℓ} → ℕ → A → List A → List A
resize zero d xs = []
resize (suc n) d [] = d ∷ resize n d []
resize (suc n) d (x ∷ xs) = x ∷ resize n d xs

-- As many rows as columns, `n` of each.
pub record IsSquare (n : ℕ) (g : Grid) : Type 0 where
  pub rows : length g ≡ n
  pub columns : (i : ℕ) → i < n → length (get_or g i []) ≡ n

pub length-write : (g : Grid) (i j v : ℕ) → length (write g i j v) ≡ length g
unfolding write
length-write g i j v = length-set g i (set (get_or g i []) j v)

pub row-write :
    (g : Grid) (i j a v : ℕ)
    → i < length g
    → get_or (write g i j v) a [] ≡ (if a == i then set (get_or g i []) j v else get_or g a [])
unfolding write
row-write g i j a v hi = get_or-set_if g i a (set (get_or g i []) j v) [] hi

pub entry-write_in :
    (g : Grid) (i j a b v : ℕ)
    → i < length g
    → j < length (get_or g i [])
    → entry (write g i j v) a b ≡ (if (a == i) && (b == j) then v else entry g a b)
unfolding entry
entry-write_in g i j a b v hi hj =
    ground (arith, row-write g i j a v hi, get_or-set_if (get_or g i []) j b v 0)

pub entry-write :
    {n : ℕ} {g : Grid} (sq : IsSquare n g) (i j a b v : ℕ)
    → i < n
    → j < n
    → entry (write g i j v) a b ≡ (if (a == i) && (b == j) then v else entry g a b)
entry-write {g} sq i j a b v hi hj =
    entry-write_in g i j a b v (omega (arith, sq.rows)) (omega (arith, sq.columns i hi))

pub write-IsSquare :
    {n : ℕ} {g : Grid} (sq : IsSquare n g) (i j v : ℕ) → i < n → IsSquare n (write g i j v)
unfolding write
write-IsSquare {g} sq i j v hi = record {
  rows = omega (arith, length-set g i (set (get_or g i []) j v), sq.rows);
  columns = λ a ha. ground (
    arith,
    get_or-set_if g i a (set (get_or g i []) j v) [],
    sq.rows,
    sq.columns a,
    sq.columns i,
    length-set (get_or g i []) j v,
  );
}

-- `for (i = 0; i < n; ++i) for (j = 0; j < n; ++j) body`.
abbrev pub for_cells {ℓ} : {S : Type ℓ} → ℕ → (ℕ → ℕ → S → S) → S → S
for_cells n body st = for_range n 0 (λ i s. for_range n 0 (body i) s) st

-- What holds before the first cell, what each cell keeps and what goes from the end of a row to the next
-- holds after the last row.
pub for_cells_ind {ℓ κ} :
    {S : Type ℓ} (P : ℕ → ℕ → S → Type κ) (n : ℕ) (body : ℕ → ℕ → S → S)
    → ((i j : ℕ) (st : S) → i < n → j < n → P i j st → P i (j + 1) (body i j st))
    → ((i : ℕ) (st : S) → i < n → P i n st → P (i + 1) 0 st)
    → (st : S) → P 0 0 st
    → P n 0 (for_cells n body st)
for_cells_ind P n body keep next st h =
    for_range_ind (λ i s. P i 0 s) n 0 n (λ i s. for_range n 0 (body i) s) (omega arith)
      (λ i s low high p. next i _ high (
        for_range_ind (P i) n 0 n (body i) (omega arith)
          (λ j s' low' high' p'. keep i j s' high high' p') s p))
      st h

pub length-resize {ℓ} : {A : Type ℓ} (n : ℕ) (d : A) (xs : List A) → length (resize n d xs) ≡ n
unfolding resize
length-resize zero d xs = refl
length-resize (suc n) d [] = ap suc (length-resize n d [])
length-resize (suc n) d (x ∷ xs) = ap suc (length-resize n d xs)

pub get_or-resize {ℓ} :
    {A : Type ℓ} (n : ℕ) (d : A) (i : ℕ) (e : A) → i < n → get_or (resize n d []) i e ≡ d
unfolding resize
get_or-resize zero d i e h = absurd (omega arith)
get_or-resize (suc n) d zero e h = refl
get_or-resize (suc n) d (suc i) e h = get_or-resize n d i e (omega arith)
