-- ===== src/Staff/Figures.antt =====
-- The figures of the platform: analytics and revenue (staff-portal/src/app/analytics/page.tsx and
-- app/revenue/page.tsx).
use the_eye.Base.{
  ℕ, ◌+◌, Option, some, List, [], ◌∷◌, String, ◌==◌, ◌≡◌, refl, arith, filter, eqb, ltb, leb,
  if◌then◌else◌,
}
use the_eye.Browser.{Browser}
use the_eye.Http.{Fetched, api_message}
use the_eye.Staff.Api.Plans.{get_platform_analytics, get_revenue_stats}
use the_eye.Staff.Api.Call.{plans}
use the_eye.Staff.Page.{staff_load}

pub record DayCount : Type 0 where
  pub date : String
  pub count : ℕ

pub record SeverityCount : Type 0 where
  pub severity : String
  pub count : ℕ

pub record CategoryCount : Type 0 where
  pub category : String
  pub count : ℕ

pub record TopTenant : Type 0 where
  pub tenant_id : String
  pub tenant_name : String
  pub count : ℕ

pub record PlatformAnalytics : Type 0 where
  pub events_by_day : List DayCount
  pub events_by_severity : List SeverityCount
  pub events_by_category : List CategoryCount
  pub top_tenants : List TopTenant

pub record MonthCount : Type 0 where
  pub month : String
  pub count : ℕ

-- Amounts are natural numbers here.
pub record RevenueStats : Type 0 where
  pub mrr : ℕ
  pub arr : ℕ
  pub paying_count : ℕ
  pub trialing_count : ℕ
  pub past_due_count : ℕ
  pub churned_count : ℕ
  pub growth_30d : ℕ
  pub monthly_trend : List MonthCount

pub record Figures (A : Type 0) : Type 0 where
  pub shown : Option A
  pub error : Option String

module _ (env : Option String) where
  unfoldable pub load_analytics :
      Fetched PlatformAnalytics
      → Figures PlatformAnalytics
      → Browser
      → Figures PlatformAnalytics × Browser
  load_analytics =
      staff_load env (plans get_platform_analytics) (λ a p. record p { shown = some a })
        (λ f p. record p { error = some (api_message "Failed to load analytics" f) })

  unfoldable pub load_revenue :
      Fetched RevenueStats → Figures RevenueStats → Browser → Figures RevenueStats × Browser
  load_revenue =
      staff_load env (plans get_revenue_stats) (λ a p. record p { shown = some a })
        (λ f p. record p { error = some (api_message "Failed to load revenue stats" f) })

unfoldable pub total_events : List DayCount → ℕ
total_events [] = 0
total_events (d ∷ ds) = d.count + total_events ds

-- Math.max(...counts, 1)
unfoldable pub max_day : List DayCount → ℕ
max_day [] = 1
max_day (d ∷ ds) = let m = max_day ds in if leb m d.count then d.count else m

-- The count of the first entry of critical events.
unfoldable pub critical_count : List SeverityCount → ℕ
critical_count [] = 0
critical_count (c ∷ cs) =
    let rest = critical_count cs in if c.severity == "critical" then c.count else rest

pub record Segment : Type 0 where
  pub label : String
  pub count : ℕ
  pub color : String

abbrev segment : String → ℕ → String → Segment
segment label count color = record { label = label; count = count; color = color }

-- The segments of the ring: those with no tenant are left out.
unfoldable pub segments : RevenueStats → List Segment
segments s =
    filter (λ g. ltb 0 g.count)
      (segment "Paying" s.paying_count "#22c55e"
        ∷ segment "Trialing" s.trialing_count "#f59e0b"
        ∷ segment "Past Due" s.past_due_count "#ef4444"
        ∷ segment "Churned" s.churned_count "#6b7280"
        ∷ [])

unfoldable pub sum_counts : List Segment → ℕ
sum_counts [] = 0
sum_counts (g ∷ gs) = g.count + sum_counts gs

-- … || 1, so that the shares can be taken of it.
unfoldable pub ring_total : RevenueStats → ℕ
unfolding segments sum_counts
ring_total s = let n = sum_counts (segments s) in if eqb n 0 then 1 else n

sum_counts-filter :
    (gs : List Segment) → sum_counts (filter (λ g. ltb 0 g.count) gs) ≡ sum_counts gs
unfolding sum_counts
sum_counts-filter [] = refl
sum_counts-filter (g ∷ gs) = ground (arith, sum_counts-filter gs)

-- The total of the ring counts every tenant, also where some segments are left out, and it is 1 where
-- there is none.
ring_total_lem :
    (s : RevenueStats)
    → let n = s.paying_count + (s.trialing_count + (s.past_due_count + s.churned_count)) in
      ring_total s ≡ (if eqb n 0 then 1 else n)
unfolding ring_total segments sum_counts
ring_total_lem s = ground (
  arith,
  sum_counts-filter (
      segment "Paying" s.paying_count "#22c55e"
      ∷ segment "Trialing" s.trialing_count "#f59e0b"
      ∷ segment "Past Due" s.past_due_count "#ef4444"
      ∷ segment "Churned" s.churned_count "#6b7280"
      ∷ []),
)
