-- ===== src/Activity/Laws.antt =====
-- The grid of the activity holds the last count given for each hour of each day, and the peak is the
-- largest count.
use mathlib.Core.Option.{some-injective}
use the_eye.Base.{
  or_else, ℕ, zero, suc, ◌≤◌, ◌<◌, ◌&&◌, Option, none, some, List, [], ◌∷◌, ◌≡◌, refl, arith, ◌∙◌,
  ap, ltb, eqb, All, Bool-cases, inl, inr, if◌then◌else◌, length,
}
use the_eye.Views.{HeatmapCell}
use the_eye.Activity.{
  Row, Grid, zeros, set_at, set_cell, empty_grid, fill_grid, build_grid, peak_from, peak_cell,
}

-- What a row holds, and what a grid does; a hole counts as 0, as does what is past the end.
abbrev pub at : ℕ → Row → ℕ
at i [] = 0
at zero (x ∷ xs) = or_else x 0
at (suc i) (x ∷ xs) = at i xs

abbrev pub cell_at : ℕ → ℕ → Grid → ℕ
cell_at d h [] = 0
cell_at zero h (row ∷ rows) = at h row
cell_at (suc d) h (row ∷ rows) = cell_at d h rows

pub at-set_at : (i j x : ℕ) (xs : Row) → at j (set_at i x xs) ≡ (if eqb i j then x else at j xs)
unfolding set_at
at-set_at zero zero x [] = refl
at-set_at zero zero x (y ∷ ys) = refl
at-set_at zero (suc j) x [] = ground arith
at-set_at zero (suc j) x (y ∷ ys) = ground arith
at-set_at (suc i) zero x [] = ground arith
at-set_at (suc i) zero x (y ∷ ys) = ground arith
at-set_at (suc i) (suc j) x [] = ground (arith, at-set_at i j x [])
at-set_at (suc i) (suc j) x (y ∷ ys) = ground (arith, at-set_at i j x ys)

-- What a cell shows after a grid that was given below its first row.
below_first :
    (row : Row) (o : Option Grid) {g' : Grid}
    → elim o [ none ↦ none | some g ↦ some (row ∷ g) ] ≡ some g'
    → (g : Grid) × (o ≡ some g) × (row ∷ g ≡ g')
below_first row none e = ground (arith, e)
below_first row (some g) e = (g, refl, some-injective (row ∷ g) _ e)

cell_at-set_cell :
    (day hour count d h : ℕ) (g : Grid) {g' : Grid}
    → set_cell day hour count g ≡ some g'
    → cell_at d h g' ≡ (if eqb day d && eqb hour h then count else cell_at d h g)
unfolding set_cell
cell_at-set_cell day hour count d h [] e = ground arith
cell_at-set_cell zero hour count zero h (row ∷ rows) e =
    rw⁻¹ (some-injective (set_at hour count row ∷ rows) _ e)
      (ground (arith, at-set_at hour h count row))
cell_at-set_cell zero hour count (suc d) h (row ∷ rows) e =
    rw⁻¹ (some-injective (set_at hour count row ∷ rows) _ e) (ground arith)
cell_at-set_cell (suc day) hour count zero h (row ∷ rows) e =
    let (g, k, same) = below_first row (set_cell day hour count rows) e in rw⁻¹ same (ground arith)
cell_at-set_cell (suc day) hour count (suc d) h (row ∷ rows) e =
    let (g, k, same) = below_first row (set_cell day hour count rows) e in
    rw⁻¹ same (ground (arith, cell_at-set_cell day hour count d h rows k))

set_cell_day :
    (day hour count : ℕ) (g : Grid)
    → day < length g
    → (g' : Grid) × (set_cell day hour count g ≡ some g') × (length g' ≡ length g)
unfolding set_cell
set_cell_day day hour count [] h = ground (arith, h)
set_cell_day zero hour count (row ∷ rows) h = (set_at hour count row ∷ rows, refl, refl)
set_cell_day (suc day) hour count (row ∷ rows) h =
    let (g, e, same) = set_cell_day day hour count rows (omega (arith, h)) in
    (row ∷ g, rw e refl, omega (arith, same))

-- The count of the last cell of a day and hour, or the one given where there is none.
abbrev pub last_count : ℕ → ℕ → List HeatmapCell → ℕ → ℕ
last_count d h [] x = x
last_count d h (c ∷ cs) x = last_count d h cs (if eqb c.day d && eqb c.hour h then c.count else x)

fill_grid_lem :
    (cells : List HeatmapCell) (g : Grid)
    → All (λ c. c.day < length g) cells
    → (g' : Grid) × (fill_grid cells g ≡ some g')
      × ((d h : ℕ) → cell_at d h g' ≡ last_count d h cells (cell_at d h g))
unfolding fill_grid
fill_grid_lem [] g days = (g, refl, λ d h. refl)
fill_grid_lem (c ∷ cs) g days =
    let (g₁, e, same) = set_cell_day c.day c.hour c.count g days.0 in
    let (g', k, counts) = fill_grid_lem cs g₁ (rw same days.1) in
    (
      g',
      rw (e, fill_grid) k,
      λ d h. counts d h ∙ ap (last_count d h cs) (cell_at-set_cell c.day c.hour c.count d h g e),
    )

pub at-zeros : (n i : ℕ) → at i (zeros n) ≡ 0
unfolding zeros
at-zeros zero i = refl
at-zeros (suc n) zero = refl
at-zeros (suc n) (suc i) = at-zeros n i

cell_at-empty_grid : (d h : ℕ) → cell_at d h empty_grid ≡ 0
unfolding empty_grid
cell_at-empty_grid zero h = at-zeros 24 h
cell_at-empty_grid (suc zero) h = at-zeros 24 h
cell_at-empty_grid (suc (suc zero)) h = at-zeros 24 h
cell_at-empty_grid (suc (suc (suc zero))) h = at-zeros 24 h
cell_at-empty_grid (suc (suc (suc (suc zero)))) h = at-zeros 24 h
cell_at-empty_grid (suc (suc (suc (suc (suc zero))))) h = at-zeros 24 h
cell_at-empty_grid (suc (suc (suc (suc (suc (suc zero)))))) h = at-zeros 24 h
cell_at-empty_grid (suc (suc (suc (suc (suc (suc (suc d))))))) h = refl

-- If every cell is of one of the seven days, the grid is built without an error, and it shows for
-- each day and hour the count of the last cell given for them, and 0 where there is none.
pub build_grid_lem :
    (cells : List HeatmapCell)
    → All (λ c. c.day < 7) cells
    → (g : Grid) × (build_grid cells ≡ some g)
      × ((d h : ℕ) → cell_at d h g ≡ last_count d h cells 0)
unfolding build_grid empty_grid
build_grid_lem cells days =
    let (g, e, counts) = fill_grid_lem cells empty_grid days in
    (g, e, λ d h. counts d h ∙ ap (last_count d h cells) (cell_at-empty_grid d h))

larger_of :
    (a c : HeatmapCell)
    → (a.count ≤ (if ltb a.count c.count then c else a).count)
      × (c.count ≤ (if ltb a.count c.count then c else a).count)
larger_of a c = elim (Bool-cases (ltb a.count c.count)) [
  | inl e ↦ rw e (ground (arith, e), omega arith)
  | inr e ↦ rw e (omega arith, ground (arith, e))
]

-- No cell has a larger count than the peak, and the peak is the cell given or one of the list.
peak_from_lem :
    (a : HeatmapCell) (cs : List HeatmapCell)
    → (a.count ≤ (peak_from a cs).count) × All (λ c. c.count ≤ (peak_from a cs).count) cs
unfolding peak_from
peak_from_lem a [] = (omega arith, tt)
peak_from_lem a (c ∷ cs) =
    let (left, right) = larger_of a c in
    let (first, rest) = peak_from_lem (if ltb a.count c.count then c else a) cs in
    (omega (arith, left, first), (omega (arith, right, first), rest))

-- Every cell has at most the count of the peak cell.
peak_cell_lem : (cells : List HeatmapCell) → All (λ c. c.count ≤ (peak_cell cells).count) cells
unfolding peak_cell
peak_cell_lem cells = (peak_from_lem (record { day = 0; hour = 0; count = 0 }) cells).1
