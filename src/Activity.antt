-- ===== src/Activity.antt =====
-- The activity by day of the week and hour (frontend/src/app/activity/page.tsx).
pub mod Laws
use the_eye.Base.{
  ℕ, zero, suc, ◌+◌, Bool, true, false, Option, none, some, List, [], ◌∷◌, leb, ltb, eqb,
  if◌then◌else◌,
}
use the_eye.Views.{HeatmapCell}

-- An array of numbers, with `none` for a hole, which is read as `undefined`.
abbrev pub Row : Type 0
Row = List (Option ℕ)

-- Array(n).fill(0)
unfoldable pub zeros : ℕ → Row
zeros zero = []
zeros (suc n) = some 0 ∷ zeros n

abbrev pub Grid : Type 0
Grid = List Row

-- row[i] = x: a longer row where i is past its end, with holes in between
unfoldable pub set_at : ℕ → ℕ → Row → Row
set_at zero x [] = some x ∷ []
set_at zero x (y ∷ ys) = some x ∷ ys
set_at (suc i) x [] = none ∷ set_at i x []
set_at (suc i) x (y ∷ ys) = y ∷ set_at i x ys

-- grid[day][hour] = count, which throws (`none`) where there is no such day
unfoldable pub set_cell : ℕ → ℕ → ℕ → Grid → Option Grid
unfolding set_at
set_cell day hour count [] = none
set_cell zero hour count (row ∷ rows) = some (set_at hour count row ∷ rows)
set_cell (suc day) hour count (row ∷ rows) = elim (set_cell day hour count rows) [
  | none ↦ none
  | some g ↦ some (row ∷ g)
]

unfoldable pub empty_grid : Grid
unfolding zeros
empty_grid = zeros 24 ∷ zeros 24 ∷ zeros 24 ∷ zeros 24 ∷ zeros 24 ∷ zeros 24 ∷ zeros 24 ∷ []

unfoldable pub fill_grid : List HeatmapCell → Grid → Option Grid
unfolding set_cell
fill_grid [] g = some g
fill_grid (c ∷ cs) g = elim (set_cell c.day c.hour c.count g) [
  | none ↦ none
  | some h ↦ fill_grid cs h
]

unfoldable pub build_grid : List HeatmapCell → Option Grid
unfolding fill_grid empty_grid
build_grid cells = fill_grid cells empty_grid

-- Math.max(...counts, 1)
unfoldable pub max_count : List HeatmapCell → ℕ
max_count [] = 1
max_count (c ∷ cs) = let m = max_count cs in if leb m c.count then c.count else m

-- The first cell with the largest count, from the one given.
unfoldable pub peak_from : HeatmapCell → List HeatmapCell → HeatmapCell
peak_from a [] = a
peak_from a (c ∷ cs) = peak_from (if ltb a.count c.count then c else a) cs

unfoldable pub peak_cell : List HeatmapCell → HeatmapCell
unfolding peak_from
peak_cell cells = peak_from (record { day = 0; hour = 0; count = 0 }) cells
