-- ===== src/Analytics/View.antt =====
-- What the analytics page draws from its answer (frontend/src/app/analytics/page.tsx): the cards,
-- the bars of its charts, and which of its parts are there.
use the_eye.Base.{
  [], ◌∷◌, ℕ, Bool, false, ◌&&◌, not, Option, none, some, List, String, ◌⧺◌, map, take, ltb, leb,
  eqb, is_some, if◌then◌else◌,
}
use the_eye.Doubles.{Doubles}
use the_eye.Charts.{max_or_one, sum_of, at_least_one, percent, share, day_bar, hour_mix}
use the_eye.Text.{text_length}
use the_eye.Analytics.{
  DayTotal, AnalyticsData, AnalyticsPage, critical_of, failures_of, peak_day, peak_hour, no_day,
  no_hour, hours_of, counts_of,
}

-- The parts of the page: the skeleton, the error, the charts and the empty state.
abbrev pub shows_charts : AnalyticsPage → Bool
shows_charts p = is_some p.shown && not p.loading

abbrev pub shows_empty : AnalyticsPage → Bool
shows_empty p =
    not p.loading
    && not (is_some p.error)
    && elim p.shown [ none ↦ false | some a ↦ eqb a.total_events 0 ]

pub record Kpi : Type 0 where
  pub label : String
  pub value : String
  pub sub : String
  pub tone : String

pub record RankedType (D : Type 0) : Type 0 where
  pub label : String
  pub count : ℕ
  pub pct : D

module _ (d : Doubles) where
  open d use {Double, of, div}

  -- `fixed` is toFixed(1), `locale` is toLocaleString() and `digits` is String(n).
  module _ (fixed : Double → String) (locale digits : ℕ → String) where
    unfoldable pub fmt : ℕ → String
    fmt n =
        if leb 1000000 n
        then fixed (div (of n) (of 1000000)) ⧺ "M"
        else (if leb 1000 n then fixed (div (of n) (of 1000)) ⧺ "k" else locale n)

    -- String(n).padStart(2, "0") ⧺ ":00"
    unfoldable pub hour_text : ℕ → String
    hour_text h = (if ltb (text_length (digits h)) 2 then "0" ⧺ digits h else digits h) ⧺ ":00"

    abbrev pub of_total : ℕ → ℕ → String
    of_total n total =
        if ltb 0 n then fixed (percent d n (at_least_one total)) ⧺ "% of total" else "none detected"

    unfoldable pub cards : AnalyticsData → List Kpi
    unfolding fmt hour_text critical_of failures_of peak_hour
    cards a =
        let critical = critical_of a.events_by_severity in
        let failures = failures_of a.outcome_breakdown in
        let peak = peak_hour no_hour a.activity_by_hour in
        record {
          label = "Total Events";
          value = fmt a.total_events;
          sub = "recorded in last 30 days";
          tone = "accent";
        }
        ∷ record {
          label = "Critical Events";
          value = fmt critical;
          sub = of_total critical a.total_events;
          tone = if ltb 0 critical then "danger" else "safe";
        }
        ∷ record {
          label = "Failures / Denied";
          value = fmt failures;
          sub = of_total failures a.total_events;
          tone = if ltb 0 failures then "warn" else "safe";
        }
        ∷ record {
          label = "Peak Hour";
          value = hour_text peak.hour;
          sub = if ltb 0 peak.count then fmt peak.count ⧺ " events at peak" else "";
          tone = "iris";
        }
        ∷ []

  -- HBar and SeverityRow
  unfoldable pub category_bars : AnalyticsData → List Double
  unfolding share sum_of
  category_bars a =
      let total = sum_of (map (λ r. r.count) a.events_by_category) in
      map (λ r. share d r.count total) a.events_by_category

  unfoldable pub severity_bars : AnalyticsData → List Double
  unfolding share sum_of
  severity_bars a =
      let total = sum_of (map (λ r. r.count) a.events_by_severity) in
      map (λ r. share d r.count total) a.events_by_severity

  unfoldable pub outcome_bars : AnalyticsData → List Double
  unfolding share sum_of
  outcome_bars a =
      let total = sum_of (map (λ r. r.count) a.outcome_breakdown) in
      map (λ r. share d r.count total) a.outcome_breakdown

  -- The ten first types, whose shares are of the total over all types.
  unfoldable pub top_types : AnalyticsData → List (RankedType Double)
  unfolding share sum_of
  top_types a =
      let total = sum_of (map (λ r. r.count) a.top_event_types) in
      map (λ r. record { label = r.event_type; count = r.count; pct = share d r.count total })
        (take 10 a.top_event_types)

  unfoldable pub day_bars : AnalyticsData → List Double
  unfolding day_bar max_or_one
  day_bars a =
      let max = max_or_one (map (λ r. r.count) a.events_by_day) in
      map (λ r. day_bar d r.count max) a.events_by_day

  -- The shares of colour of the hours; `none` where they are all NaN.
  abbrev pub mixes_of : Option (List ℕ) → Option (List Double)
  mixes_of none = none
  mixes_of (some filled) = let max = max_or_one filled in some (map (λ c. hour_mix d c max) filled)

  unfoldable pub hour_mixes : AnalyticsData → Option (List Double)
  hour_mixes a = mixes_of (counts_of (hours_of a))

-- The peak day, which is named below its chart where there were events.
unfoldable pub peak_line : AnalyticsData → Option DayTotal
unfolding peak_day
peak_line a =
    let peak = peak_day no_day a.events_by_day in if ltb 0 peak.count then some peak else none
