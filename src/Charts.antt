-- ===== src/Charts.antt =====
-- The sizes of the bars in the charts of both portals: frontend/src/app/analytics/page.tsx,
-- frontend/src/app/intrusion-detection/page.tsx, frontend/src/components/ProgressBar.tsx, and
-- staff-portal/src/app: analytics, revenue, audit, billing.
pub mod Ticks
pub mod Totals
pub mod Laws
use the_eye.Base.{ℕ, ◌+◌, Bool, true, false, List, [], ◌∷◌, leb, ltb, if◌then◌else◌}
use the_eye.Doubles.{Doubles}

-- Math.max(...counts, 1), and the sum by `reduce`
unfoldable pub max_or_one : List ℕ → ℕ
max_or_one [] = 1
max_or_one (n ∷ ns) = let m = max_or_one ns in if leb m n then n else m

unfoldable pub sum_of : List ℕ → ℕ
sum_of [] = 0
sum_of (n ∷ ns) = n + sum_of ns

-- Math.max(n, 1)
abbrev pub at_least_one : ℕ → ℕ
at_least_one n = if leb n 1 then 1 else n

module _ (d : Doubles) where
  open d use {Double, of, div, mul, add, larger, smaller, round}

  -- (count / total) * 100
  abbrev pub percent : ℕ → ℕ → Double
  percent count total = mul (div (of count) (of total)) (of 100)

  -- HBar, SeverityRow, the ranked list and CountryBar
  unfoldable pub share : ℕ → ℕ → Double
  share count total = if ltb 0 total then percent count total else of 0

  -- DayBarChart
  unfoldable pub day_bar : ℕ → ℕ → Double
  day_bar count max = larger (of 2) (percent count max)

  -- HourHeatmap
  unfoldable pub hour_mix : ℕ → ℕ → Double
  hour_mix count max =
      round (add (mul (div (of count) (of max)) (of 80)) (of (if ltb 0 count then 8 else 0)))

  -- ProgressBar
  unfoldable pub progress : Double → Double → Double
  progress value max = larger (of 0) (smaller (of 100) (mul (div value max) (of 100)))

  -- The bars of the staff portal: of a day in pixels, of a month, and rounded shares.
  unfoldable pub day_pixels : ℕ → ℕ → Double
  day_pixels count max = larger (of 2) (mul (div (of count) (of max)) (of 128))

  unfoldable pub month_bar : ℕ → ℕ → Double
  month_bar count max = larger (round (percent count max)) (of 4)

  unfoldable pub rounded_share : ℕ → ℕ → Double
  rounded_share count total = if ltb 0 total then round (percent count total) else of 0

  unfoldable pub rate : ℕ → ℕ → Double
  rate count total = round (percent count (at_least_one total))
